-- ===== src/RateLimit/FixedWindow/Bounds.antt =====
-- crates/server/src/middleware/throttle.rs: how much the limiter keeps.
use oidc_exchange.Base.{
  ℕ, ◌+◌, ◌-◌, ◌≡◌, ◌≤◌, refl, sym, inl, inr, true, false, Option, none, some, [], ◌∷◌, arith, ltb,
  ◌==◌, if◌then◌else◌, length, length-keep, keep, find, length-write, length-remove_lt, Bool-cases,
  Option-cases, ◌⊎◌, subst,
}
use oidc_exchange.Error.{Result-cases}
use oidc_exchange.RateLimit.Key.{RateLimitKey, RateLimitKey-Eq, key_eq, key_eq_iff}
use oidc_exchange.RateLimit.FixedWindow.Window.{make_room-some}
use oidc_exchange.RateLimit.FixedWindow.{
  Bucket, Buckets, FixedWindowRateLimiter, for_key, fresh, oldest, evict, make_room, charge,
  consume, check_in, check_at,
}

abbrev Found : RateLimitKey → Buckets → Type 0
Found k m = (b : Bucket) × (find k m ≡ some b)

Found-first :
    (k : RateLimitKey) (entry : RateLimitKey × Bucket) (m : Buckets)
    → (key_eq k entry.0 ≡ true) ⊎ Found k m
    → Found k (entry ∷ m)
unfolding find
Found-first k entry m (inl y) = (entry.1, ground (arith, y))
Found-first k entry m (inr (b, there)) = elim (Bool-cases (key_eq k entry.0)) [
  | inl y ↦ (entry.1, ground (arith, y))
  | inr n ↦ (b, ground (arith, n, there))
]

Found-inv :
    (k : RateLimitKey) (entry : RateLimitKey × Bucket) (m : Buckets)
    → Found k (entry ∷ m)
    → (key_eq k entry.0 ≡ true) ⊎ Found k m
unfolding find
Found-inv k entry m (b, there) = elim (Bool-cases (key_eq k entry.0)) [
  | inl y ↦ inl y
  | inr n ↦ inr (b, ground (arith, n, there))
]

Found-under :
    (k : RateLimitKey) (best entry : RateLimitKey × Bucket) (m : Buckets)
    → Found k (best ∷ m)
    → Found k (best ∷ entry ∷ m)
Found-under k best entry m f = elim (Found-inv k best m f) [
  | inl y ↦ Found-first k best (entry ∷ m) (inl y)
  | inr g ↦ Found-first k best (entry ∷ m) (inr (Found-first k entry m (inr g)))
]

oldest-Found :
    (best : RateLimitKey × Bucket) (rest : Buckets) → Found (oldest best rest).0 (best ∷ rest)
unfolding oldest
oldest-Found best [] = Found-first best.0 best [] (inl ((key_eq_iff best.0 best.0).1 refl))
oldest-Found best (entry ∷ rest) = elim (Bool-cases (ltb entry.1.started_at best.1.started_at)) [
  | inl y ↦
      subst (λ b. Found (oldest (if b then entry else best) rest).0 (best ∷ entry ∷ rest)) (sym y)
        (Found-first (oldest entry rest).0 best (entry ∷ rest) (inr (oldest-Found entry rest)))
  | inr n ↦
      subst (λ b. Found (oldest (if b then entry else best) rest).0 (best ∷ entry ∷ rest)) (sym n)
        (Found-under (oldest best rest).0 best entry rest (oldest-Found best rest))
]

evict-length : (state : Buckets) → length (evict state) ≤ length state - 1
unfolding evict
evict-length [] = omega arith
evict-length (entry ∷ rest) =
    let (b, there) = oldest-Found entry rest in
    omega (arith, length-remove_lt (oldest entry rest).0 b (entry ∷ rest) there)

make_room-length :
    (n : ℕ) (key : RateLimitKey) (state : Buckets)
    → length state ≤ n
    → (n == 0) ≡ false
    → find key state ≡ none
    → length (make_room n key state) + 1 ≤ n
unfolding make_room
make_room-length n key state h nz absent = ground (arith, h, nz, absent, evict-length state)

pub consume-length :
    (window budget : ℕ) (key : RateLimitKey) (now : ℕ) (state : Buckets) (o : Option Bucket)
    → length (consume window budget key now state o).1
      ≡ length state + elim o [ some _ ↦ 0 | none ↦ 1 ]
unfolding consume
consume-length window budget key now state (some b) =
    omega (arith, length-write key (charge window budget key now b).1 state)
consume-length window budget key now state none = omega arith

make_room-cases :
    (n : ℕ) (key : RateLimitKey) (state : Buckets)
    → length state ≤ n
    → (n == 0) ≡ false
    → let room = make_room n key state in
      length room + elim (find key room) [ some _ ↦ 0 | none ↦ 1 ] ≤ n
make_room-cases n key state h nz = elim (Option-cases (find key state)) [
  | inl absent ↦ ground (arith, make_room-length n key state h nz absent)
  | inr (b, there) ↦
      subst (λ m. length m + elim (find key m) [ some _ ↦ 0 | none ↦ 1 ] ≤ n)
        (sym (make_room-some n key state b there)) (ground (arith, there, h))
]

check_in-length :
    (window n budget : ℕ) (key : RateLimitKey) (now : ℕ) (state : Buckets)
    → length state ≤ n
    → (n == 0) ≡ false
    → length (check_in window n budget key now state).1 ≤ n
unfolding check_in
check_in-length window n budget key now state h nz =
    let kept : Buckets = keep (fresh window now) state in
    let room : Buckets = make_room n key kept in
    omega (
      arith,
      consume-length window budget key now room (find key room),
      make_room-cases n key kept (omega (arith, length-keep (fresh window now) state)) nz,
    )

-- However many keys call, the map of the limiter never outgrows `max_entries`, which is not zero.
pub check_at-length :
    (l : FixedWindowRateLimiter) (key : RateLimitKey) (now : ℕ)
    → (l.max_entries == 0) ≡ false
    → length l.state ≤ l.max_entries
    → let l' = (check_at l key now).1 in
      (length l'.state ≤ l'.max_entries) × (l'.max_entries ≡ l.max_entries)
unfolding check_at
check_at-length l key now nz h = elim (Result-cases (for_key l.budgets key)) [
  | inl (budget, p) ↦
      ground (arith, p, check_in-length l.window l.max_entries budget key now l.state h nz)
  | inr (inl (e, p)) ↦ ground (arith, p)
  | inr (inr p) ↦ ground (arith, p)
]
