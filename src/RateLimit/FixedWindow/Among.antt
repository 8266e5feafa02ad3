-- ===== src/RateLimit/FixedWindow/Among.antt =====
-- crates/server/src/middleware/throttle.rs: what the checks of a key answer in one window, among the
-- checks of other keys.
use oidc_exchange.Base.{
  ℕ, suc, ◌+◌, ◌-◌, ◌≡◌, ◌≢◌, ◌≤◌, ◌<◌, refl, ap, ◌∙◌, inl, inr, true, false, Option, none, some,
  List, [], ◌∷◌, arith, ltb, ◌==◌, min, length, length-keep, keep, All, find, find-keep,
  find-write_ne, subst, Bool-cases, Option-cases, if◌then◌else◌,
}
use oidc_exchange.Error.{Result, ok, Result-cases}
use oidc_exchange.RateLimit.Key.{
  RateLimitKey, RateLimitDecision, allow, RateLimitKey-Eq, key_eq, key_eq_iff,
}
use oidc_exchange.RateLimit.FixedWindow.{
  Bucket, Buckets, FixedWindowRateLimiter, for_key, fresh, make_room, charge, consume, check_in,
  check_at,
}
use oidc_exchange.RateLimit.FixedWindow.Window.{
  newborn, check_in-some, check_in-none, charge_under, charge_spent, check_at-budget,
}
use oidc_exchange.RateLimit.FixedWindow.Bounds.{consume-length}

-- Where there is room, a check evicts nothing.
make_room-room :
    (n : ℕ) (key : RateLimitKey) (state : Buckets)
    → length state < n
    → make_room n key state ≡ state
unfolding make_room
make_room-room n key state h = ground (arith, h, Option-cases (find key state))

-- The check of a key leaves the bucket of another.
consume-other :
    (window budget : ℕ) (key k : RateLimitKey) (now : ℕ) (state : Buckets) (o : Option Bucket)
    → key ≢ k
    → find key (consume window budget k now state o).1 ≡ find key state
unfolding consume find
consume-other window budget key k now state (some b) n =
    find-write_ne k key (charge window budget k now b).1 state n
consume-other window budget key k now state none n = ground (arith, n, key_eq_iff key k)

kept-length :
    (window now n : ℕ) (state : Buckets)
    → length state < n
    → length (keep (fresh window now) state) < n
kept-length window now n state h = omega (arith, h, length-keep (fresh window now) state)

check_in-length :
    (window n budget : ℕ) (k : RateLimitKey) (now : ℕ) (state : Buckets)
    → length state < n
    → length (check_in window n budget k now state).1 ≤ length state + 1
unfolding check_in
check_in-length window n budget k now state h =
    let kept : Buckets = keep (fresh window now) state in
    rw (make_room-room n k kept (kept-length window now n state h)) (
      ground (
        arith,
        consume-length window budget k now kept (find k kept),
        length-keep (fresh window now) state,
        Option-cases (find k kept),
      ))

check_in-other :
    (window n budget : ℕ) (key k : RateLimitKey) (now : ℕ) (state : Buckets) (b : Bucket)
    → key ≢ k
    → find key state ≡ some b
    → now - b.started_at < window
    → length state < n
    → find key (check_in window n budget k now state).1 ≡ some b
unfolding check_in
check_in-other window n budget key k now state b ne h young room =
    let kept : Buckets = keep (fresh window now) state in
    rw (make_room-room n k kept (kept-length window now n state room)) (
      consume-other window budget key k now kept (find k kept) ne
      ∙ find-keep (fresh window now) key b state h (ground (arith, young)))

module _ (l : FixedWindowRateLimiter) where
  -- The limiter with another map.
  abbrev holding : Buckets → FixedWindowRateLimiter
  holding state = record l { state = state }

  check_at-other :
      (key k : RateLimitKey) (now : ℕ) (state : Buckets) (b : Bucket)
      → key ≢ k
      → find key state ≡ some b
      → now - b.started_at < l.window
      → length state < l.max_entries
      → (state' : Buckets) × ((check_at (holding state) k now).1 ≡ holding state')
        × (find key state' ≡ some b)
        × (length state' ≤ length state + 1)
  unfolding check_at
  check_at-other key k now state b ne h young room = elim (Result-cases (for_key l.budgets k)) [
    | inr (inl (e, p)) ↦ (state, ground (arith, p), h, omega arith)
    | inr (inr p) ↦ (state, ground (arith, p), h, omega arith)
    | inl (budget, p) ↦ elim (Bool-cases (budget == 0)) [
      | inl z ↦ (state, ground (arith, p, z), h, omega arith)
      | inr nz ↦ (
        (check_in l.window l.max_entries budget k now state).1,
        ap (λ x. x.1) (check_at-budget (holding state) budget k now p nz),
        check_in-other l.window l.max_entries budget key k now state b ne h young room,
        check_in-length l.window l.max_entries budget k now state room,
      )
    ]
  ]

-- How many of the checks of a key are let through, among those of all keys.
abbrev tally : Result RateLimitDecision → ℕ → ℕ
tally (ok allow) n = suc n
tally _ n = n

abbrev pub passed : RateLimitKey → List (RateLimitKey × ℕ) → FixedWindowRateLimiter → ℕ
passed key [] l = 0
passed key ((k, now) ∷ calls) l =
    let (decision, l') = check_at l k now in
    let rest = passed key calls l' in if key_eq key k then tally decision rest else rest

-- How many of the checks are of a key.
abbrev pub checks_of : RateLimitKey → List (RateLimitKey × ℕ) → ℕ
checks_of key [] = 0
checks_of key ((k, now) ∷ calls) =
    let rest = checks_of key calls in if key_eq key k then suc rest else rest

passed-cons_own :
    (key k : RateLimitKey) (now : ℕ) (calls : List (RateLimitKey × ℕ))
    (l l' : FixedWindowRateLimiter) (d : Result RateLimitDecision)
    → key_eq key k ≡ true
    → check_at l k now ≡ (d, l')
    → passed key ((k, now) ∷ calls) l ≡ tally d (passed key calls l')
passed-cons_own key k now calls l l' d e h = rw (e, h) refl

passed-cons_other :
    (key k : RateLimitKey) (now : ℕ) (calls : List (RateLimitKey × ℕ))
    (l l' : FixedWindowRateLimiter)
    → key_eq key k ≡ false
    → (check_at l k now).1 ≡ l'
    → passed key ((k, now) ∷ calls) l ≡ passed key calls l'
passed-cons_other key k now calls l l' e h = rw (e, h) refl

module _ (l : FixedWindowRateLimiter) (budget : ℕ) (key : RateLimitKey)
    (p : for_key l.budgets key ≡ ok budget) (nz : (budget == 0) ≡ false) where
  -- A check of the key in its window charges the bucket.
  check_at-own :
      (now : ℕ) (state : Buckets) (b : Bucket)
      → find key state ≡ some b
      → now - b.started_at < l.window
      → length state < l.max_entries
      → (state' : Buckets) × (check_at (holding l state) key now
          ≡ (ok (charge l.window budget key now b).0, holding l state'))
        × (find key state' ≡ some (charge l.window budget key now b).1)
        × (length state' ≤ length state + 1)
  check_at-own now state b h young room =
      let step = check_in-some l.window l.max_entries budget key now state b h young in
      (
        (check_in l.window l.max_entries budget key now state).1,
        check_at-budget (holding l state) budget key now p nz
            ∙ ap (λ d. (ok d, holding l (check_in l.window l.max_entries budget key now state).1))
                step.0,
        step.1,
        check_in-length l.window l.max_entries budget key now state room,
      )

  passed-some :
      (calls : List (RateLimitKey × ℕ)) (state : Buckets) (b : Bucket)
      → find key state ≡ some b
      → All (λ (c : RateLimitKey × ℕ). c.1 - b.started_at < l.window) calls
      → length state + length calls ≤ l.max_entries
      → passed key calls (holding l state) ≡ min (budget - b.consumed) (checks_of key calls)
  passed-some [] state b h young room = omega arith
  passed-some ((k, now) ∷ calls) state b h young room = elim (Bool-cases (key_eq key k)) [
    | inr ne ↦
        (let apart : key ≢ k = λ e. cc ((key_eq_iff key k).1 e, ne) in
          let (state', step, there, size) =
            check_at-other l key k now state b apart h young.0 (omega (arith, room)) in
          let ih = passed-some calls state' b there young.1 (omega (arith, room, size)) in
          ground (
            arith,
            ne,
            passed-cons_other key k now calls (holding l state) (holding l state') ne step,
            ih,
          ))
    | inl e ↦
        (let same : key ≡ k = (key_eq_iff key k).0 e in
          let (state', step, there, size) =
            check_at-own now state b h young.0 (omega (arith, room)) in
          let step' =
            subst
              (λ j.
                check_at (holding l state) j now
                ≡ (ok (charge l.window budget key now b).0, holding l state'))
              same step in
          let one =
            passed-cons_own key k now calls (holding l state) (holding l state')
              (ok (charge l.window budget key now b).0) e step' in
          elim (Bool-cases (ltb b.consumed budget)) [
            | inl y ↦
                (let c = charge_under l.window budget key now b y in
                  let ih =
                    passed-some calls state' (record b { consumed = b.consumed + 1 })
                      (there ∙ ap (λ r. some r.1) c) young.1 (omega (arith, room, size)) in
                  ground (
                    arith,
                    e,
                    y,
                    ih,
                    one
                        ∙ ap
                            (λ (r : RateLimitDecision × Bucket).
                              tally (ok r.0) (passed key calls (holding l state')))
                            c,
                  ))
            | inr spent ↦
                (let c = charge_spent l.window budget key now b spent in
                  let ih =
                    passed-some calls state' b (there ∙ ap (λ r. some r.1) c) young.1
                      (omega (arith, room, size)) in
                  ground (
                    arith,
                    e,
                    spent,
                    ih,
                    one
                        ∙ ap
                            (λ (r : RateLimitDecision × Bucket).
                              tally (ok r.0) (passed key calls (holding l state')))
                            c,
                  ))
          ])
  ]

-- Of the checks of a key that has no bucket, made less than a window after the first of them, the
-- limiter lets through the key's budget, or all of them where they are fewer, whatever checks of
-- other keys come in between. The budget is not zero, and the map has room for a bucket for each
-- check, so that none is evicted.
pub passed-budget :
    (l : FixedWindowRateLimiter) (budget : ℕ) (key : RateLimitKey) (first : ℕ)
    (later : List (RateLimitKey × ℕ))
    → for_key l.budgets key ≡ ok budget
    → (budget == 0) ≡ false
    → find key l.state ≡ none
    → All (λ (c : RateLimitKey × ℕ). c.1 - first < l.window) later
    → length l.state + 1 + length later ≤ l.max_entries
    → passed key ((key, first) ∷ later) l ≡ min budget (suc (checks_of key later))
passed-budget l budget key first later p nz absent young room =
    let start = check_in-none l.window l.max_entries budget key first l.state absent in
    let c = charge_under l.window budget key first (newborn first) (ground (arith, nz)) in
    let state' : Buckets = (check_in l.window l.max_entries budget key first l.state).1 in
    let size =
      check_in-length l.window l.max_entries budget key first l.state (omega (arith, room)) in
    let one =
      passed-cons_own key key first later l (holding l state') (ok allow)
        ((key_eq_iff key key).1 refl)
        (check_at-budget l budget key first p nz
          ∙ ap (λ d. (ok d, holding l state')) (start.0 ∙ ap (λ r. r.0) c)) in
    let next =
      passed-some l budget key p nz later state' (record { started_at = first; consumed = 1 })
        (start.1 ∙ ap (λ r. some r.1) c) young (omega (arith, room, size)) in
    ground (arith, one, next, nz)
