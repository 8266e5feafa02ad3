-- ===== src/RateLimit/FixedWindow/Window.antt =====
-- crates/server/src/middleware/throttle.rs: what one check does to the bucket of its key.
use oidc_exchange.Base.{
  ℕ, ◌+◌, ◌-◌, ◌≡◌, ◌<◌, refl, sym, true, false, none, some, [], ◌∷◌, arith, ltb, ◌==◌, max, keep,
  find, find-write_self, find-keep, find-keep-none, find-remove, subst,
}
use oidc_exchange.Error.{ok}
use oidc_exchange.RateLimit.Key.{RateLimitKey, allow, deny, RateLimitKey-Eq, key_eq_iff}
use oidc_exchange.RateLimit.FixedWindow.{
  Bucket, Buckets, FixedWindowRateLimiter, for_key, fresh, oldest, evict, make_room, charge,
  consume, check_in, check_at, as_secs,
}

-- The bucket that a check charges.
abbrev charged : ℕ → RateLimitKey → ℕ → Buckets → Bucket
charged window key now state = elim (find key (keep (fresh window now) state)) [
  | some b ↦ b
  | none ↦ record { started_at = now; consumed = 0 }
]

pub make_room-some :
    (n : ℕ) (key : RateLimitKey) (state : Buckets) (b : Bucket)
    → find key state ≡ some b
    → make_room n key state ≡ state
unfolding make_room
make_room-some n key state b h = ground (arith, h)

consume-some :
    (window budget : ℕ) (key : RateLimitKey) (now : ℕ) (state : Buckets) (b : Bucket)
    → find key state ≡ some b
    → find key (consume window budget key now state (some b)).1
      ≡ some (charge window budget key now b).1
unfolding consume
consume-some window budget key now state b h =
    find-write_self key (charge window budget key now b).1 b state h

consume-none :
    (window budget : ℕ) (key : RateLimitKey) (now : ℕ) (state : Buckets)
    → find key (consume window budget key now state none).1
      ≡ some (charge window budget key now (record { started_at = now; consumed = 0 })).1
unfolding consume find
consume-none window budget key now state = ground (arith, key_eq_iff key key)

evict-none :
    (key : RateLimitKey) (state : Buckets) → find key state ≡ none → find key (evict state) ≡ none
unfolding evict
evict-none key [] h = h
evict-none key (entry ∷ rest) h =
    ground (arith, find-remove (oldest entry rest).0 key (entry ∷ rest), h)

make_room-none :
    (n : ℕ) (key : RateLimitKey) (state : Buckets)
    → find key state ≡ none
    → find key (make_room n key state) ≡ none
unfolding make_room
make_room-none n key state h = ground (arith, h, evict-none key state h)

abbrev pub newborn : ℕ → Bucket
newborn now = record { started_at = now; consumed = 0 }

-- A check inside the key's window charges its bucket.
pub check_in-some :
    (window n budget : ℕ) (key : RateLimitKey) (now : ℕ) (state : Buckets) (b : Bucket)
    → find key state ≡ some b
    → now - b.started_at < window
    → let (decision, state') = check_in window n budget key now state in
      ((decision ≡ (charge window budget key now b).0)
        × (find key state' ≡ some (charge window budget key now b).1))
unfolding check_in consume
check_in-some window n budget key now state b h young =
    let kept : Buckets = keep (fresh window now) state in
    let there : find key kept ≡ some b =
      find-keep (fresh window now) key b state h (ground (arith, young)) in
    let room : make_room n key kept ≡ kept = make_room-some n key kept b there in
    subst
      (λ m.
        let (decision, state') = consume window budget key now m (find key m) in
        ((decision ≡ (charge window budget key now b).0)
          × (find key state' ≡ some (charge window budget key now b).1)))
      (sym room)
      (subst
        (λ o.
          let (decision, state') = consume window budget key now kept o in
          ((decision ≡ (charge window budget key now b).0)
            × (find key state' ≡ some (charge window budget key now b).1)))
        (sym there) (refl, consume-some window budget key now kept b there))

-- A check of a key without a bucket starts its window.
pub check_in-none :
    (window n budget : ℕ) (key : RateLimitKey) (now : ℕ) (state : Buckets)
    → find key state ≡ none
    → let (decision, state') = check_in window n budget key now state in
      ((decision ≡ (charge window budget key now (newborn now)).0)
        × (find key state' ≡ some (charge window budget key now (newborn now)).1))
unfolding check_in consume
check_in-none window n budget key now state h =
    let room : Buckets = make_room n key (keep (fresh window now) state) in
    let gone : find key room ≡ none =
      make_room-none n key (keep (fresh window now) state)
        (find-keep-none (fresh window now) key state h) in
    subst
      (λ o.
        let (decision, state') = consume window budget key now room o in
        ((decision ≡ (charge window budget key now (newborn now)).0)
          × (find key state' ≡ some (charge window budget key now (newborn now)).1)))
      (sym gone) (refl, consume-none window budget key now room)

pub charge_under :
    (window budget : ℕ) (key : RateLimitKey) (now : ℕ) (b : Bucket)
    → ltb b.consumed budget ≡ true
    → charge window budget key now b ≡ (allow, record b { consumed = b.consumed + 1 })
unfolding charge
charge_under window budget key now b y = rw y

pub charge_spent :
    (window budget : ℕ) (key : RateLimitKey) (now : ℕ) (b : Bucket)
    → ltb b.consumed budget ≡ false
    → charge window budget key now b ≡ (deny (max (as_secs (window - (now - b.started_at))) 1), b)
unfolding charge
charge_spent window budget key now b spent = rw spent

pub check_at-budget :
    (l : FixedWindowRateLimiter) (budget : ℕ) (key : RateLimitKey) (now : ℕ)
    → for_key l.budgets key ≡ ok budget
    → (budget == 0) ≡ false
    → check_at l key now ≡ (
        let (decision, state) = check_in l.window l.max_entries budget key now l.state in
        (ok decision, record l { state = state }))
unfolding check_at
check_at-budget l budget key now p nz = ground (arith, p, nz)
