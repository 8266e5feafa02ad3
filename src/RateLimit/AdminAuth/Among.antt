-- ===== src/RateLimit/AdminAuth/Among.antt =====
-- crates/adapters/src/rate_limit/mod.rs: what a peer is answered, among the calls of other peers.
use oidc_exchange.Base.{
  ℕ, suc, ◌+◌, ◌-◌, ◌≡◌, ◌≢◌, ◌≤◌, ◌<◌, refl, sym, ap, ◌∙◌, inl, inr, true, false, some, map, List,
  [], ◌∷◌, arith, ltb, ◌==◌, min, length, length-keep, length-write, keep, All, Text, text_Eq,
  text_eq, text_eq_iff, find, find-keep, find-write_self, find-write_ne, write, subst, Bool-cases,
  Option-cases, ==_iff, if◌then◌else◌,
}
use oidc_exchange.Error.{Result, ok}
use oidc_exchange.RateLimit.Key.{RateLimitDecision, allow, deny}
use oidc_exchange.RateLimit.AdminAuth.{
  PeerBucket, Peers, AdminAuthRateLimiter, max_tracked_peers, bucket_lifetime, unexpired, shrink,
  live_bucket, remaining_secs, with_state, check_peer, consume_peer,
}
use oidc_exchange.RateLimit.AdminAuth.Lockout.{
  Call, consult, failed, instant, call, effect, live_bucket-some, effect-locked, effect-counted,
  effect-last,
}

shrink-room :
    (entry : Text × PeerBucket) (rest : Peers)
    → length rest < max_tracked_peers
    → shrink entry rest ≡ some (entry ∷ rest)
unfolding shrink
shrink-room entry rest h = ground (arith, h)

-- Where there is room, the bucket of a peer that calls leaves those of the others.
live_bucket-other :
    (lifetime : ℕ) (state : Peers) (peer q : Text) (now : ℕ) (b : PeerBucket)
    → peer ≢ q
    → find peer state ≡ some b
    → now - b.started_at < lifetime
    → length state < max_tracked_peers
    → (bucket : PeerBucket) × (state' : Peers) × (live_bucket lifetime state q now
        ≡ some (bucket, state'))
      × (find peer state' ≡ some b)
      × (length state' ≤ length state + 1)
unfolding live_bucket find
live_bucket-other lifetime state peer q now b ne h young room =
    let kept : Peers = keep (unexpired lifetime now) state in
    let there = find-keep (unexpired lifetime now) peer b state h (ground (arith, young)) in
    let size = length-keep (unexpired lifetime now) state in
    elim (Option-cases (find q kept)) [
      | inr (bucket, f) ↦ (bucket, kept, ground (arith, f), there, omega (arith, size))
      | inl f ↦
          (let fresh : PeerBucket = record { started_at = now; consumed = 0 } in
            (
              fresh,
              (q, fresh) ∷ kept,
              ground (arith, f, shrink-room (q, fresh) kept (omega (arith, size, room))),
              ground (arith, there, ne, text_eq_iff peer q),
              omega (arith, size),
            ))
    ]

-- A call inside the lifetime of the peer's bucket answers by that bucket, and brings no other.
call-own :
    (l : AdminAuthRateLimiter) (peer : Text) (c : Call) (state : Peers) (b : PeerBucket)
    → l.poisoned ≡ false
    → find peer state ≡ some b
    → instant c - b.started_at < bucket_lifetime l
    → (state' : Peers) × ((call (record l { state = state }) peer c
          ≡ (ok (effect l b c).0, record l { state = state' }))
        × (find peer state' ≡ some (effect l b c).1)
        × (length state' ≤ length state))
unfolding call bucket_lifetime with_state check_peer consume_peer
call-own l peer (consult now) state b sound h young =
    let (live, there) = live_bucket-some (bucket_lifetime l) state peer now b h young in
    (
      keep (unexpired (bucket_lifetime l) now) state,
      (ground (arith, sound, live), there, length-keep (unexpired (bucket_lifetime l) now) state),
    )
call-own l peer (failed now) state b sound h young =
    let (live, there) = live_bucket-some (bucket_lifetime l) state peer now b h young in
    let kept : Peers = keep (unexpired (bucket_lifetime l) now) state in
    let bucket' : PeerBucket = (effect l b (failed now)).1 in
    (
      write peer bucket' kept,
      (
        ground (arith, sound, live),
        find-write_self peer bucket' b kept there,
        omega (
          arith,
          length-write peer bucket' kept,
          length-keep (unexpired (bucket_lifetime l) now) state,
        ),
      ),
    )

module _ (l : AdminAuthRateLimiter) (sound : l.poisoned ≡ false) where
  abbrev holding : Peers → AdminAuthRateLimiter
  holding state = record l { state = state }

  call-other :
      (peer q : Text) (c : Call) (state : Peers) (b : PeerBucket)
      → peer ≢ q
      → find peer state ≡ some b
      → instant c - b.started_at < bucket_lifetime l
      → length state < max_tracked_peers
      → (state' : Peers) × ((call (holding state) q c).1 ≡ holding state')
        × (find peer state' ≡ some b)
        × (length state' ≤ length state + 1)
  unfolding call bucket_lifetime with_state check_peer consume_peer
  call-other peer q (consult now) state b ne h young room =
      let (bucket, state', live, there, size) =
        live_bucket-other (bucket_lifetime l) state peer q now b ne h young room in
      (state', ground (arith, sound, live), there, size)
  call-other peer q (failed now) state b ne h young room =
      let (bucket, state', live, there, size) =
        live_bucket-other (bucket_lifetime l) state peer q now b ne h young room in
      let bucket' : PeerBucket = (effect l bucket (failed now)).1 in
      (
        write q bucket' state',
        ground (arith, sound, live),
        find-write_ne q peer bucket' state' ne ∙ there,
        omega (arith, size, length-write q bucket' state'),
      )

-- The answers to the calls of a peer, among those of all peers.
abbrev pub replies :
    Text → List (Text × Call) → AdminAuthRateLimiter → List (Result RateLimitDecision)
replies peer [] l = []
replies peer ((q, c) ∷ cs) l =
    let (answer, l') = call l q c in
    let rest = replies peer cs l' in if text_eq peer q then answer ∷ rest else rest

abbrev pub calls_of : Text → List (Text × Call) → List Call
calls_of peer [] = []
calls_of peer ((q, c) ∷ cs) =
    let rest = calls_of peer cs in if text_eq peer q then c ∷ rest else rest

replies-cons_own :
    (peer q : Text) (c : Call) (cs : List (Text × Call)) (l l' : AdminAuthRateLimiter)
    (answer : Result RateLimitDecision)
    → text_eq peer q ≡ true
    → call l q c ≡ (answer, l')
    → replies peer ((q, c) ∷ cs) l ≡ answer ∷ replies peer cs l'
replies-cons_own peer q c cs l l' answer e h = rw (e, h) refl

replies-cons_other :
    (peer q : Text) (c : Call) (cs : List (Text × Call)) (l l' : AdminAuthRateLimiter)
    → text_eq peer q ≡ false
    → (call l q c).1 ≡ l'
    → replies peer ((q, c) ∷ cs) l ≡ replies peer cs l'
replies-cons_other peer q c cs l l' e h = rw (e, h) refl

calls_of-own :
    (peer q : Text) (c : Call) (cs : List (Text × Call))
    → text_eq peer q ≡ true
    → calls_of peer ((q, c) ∷ cs) ≡ c ∷ calls_of peer cs
calls_of-own peer q c cs e = rw e refl

calls_of-other :
    (peer q : Text) (c : Call) (cs : List (Text × Call))
    → text_eq peer q ≡ false
    → calls_of peer ((q, c) ∷ cs) ≡ calls_of peer cs
calls_of-other peer q c cs e = rw e refl

abbrev pub locked_until : AdminAuthRateLimiter → PeerBucket → Call → Result RateLimitDecision
locked_until l b c = ok (deny (remaining_secs (bucket_lifetime l) (instant c - b.started_at)))

replies-locked :
    (l : AdminAuthRateLimiter) (sound : l.poisoned ≡ false) (peer : Text) (b : PeerBucket)
    (cs : List (Text × Call)) (state : Peers)
    → find peer state ≡ some b
    → l.max_auth_failures ≤ b.consumed
    → All (λ (x : Text × Call). instant x.1 - b.started_at < bucket_lifetime l) cs
    → length state + length cs ≤ max_tracked_peers
    → replies peer cs (holding l sound state) ≡ map (locked_until l b) (calls_of peer cs)
replies-locked l sound peer b [] state h full young room = refl
replies-locked l sound peer b ((q, c) ∷ cs) state h full young room =
    elim (Bool-cases (text_eq peer q)) [
      | inr ne ↦
          (let apart : peer ≢ q = λ e. cc ((text_eq_iff peer q).1 e, ne) in
            let (state', step, there, size) =
              call-other l sound peer q c state b apart h young.0 (omega (arith, room)) in
            replies-cons_other peer q c cs (holding l sound state) (holding l sound state') ne step
            ∙ replies-locked l sound peer b cs state' there full young.1 (omega (arith, room, size))
            ∙ ap (map (locked_until l b)) (sym (calls_of-other peer q c cs ne)))
      | inl e ↦
          (let (state', (step, there, size)) = call-own l peer c state b sound h young.0 in
            let same = effect-locked l b c full young.0 in
            let step' =
              subst
                (λ (j : Text).
                  call (holding l sound state) j c ≡ (ok (effect l b c).0, holding l sound state'))
                ((text_eq_iff peer q).0 e) step in
            replies-cons_own peer q c cs (holding l sound state) (holding l sound state')
              (locked_until l b c) e (step' ∙ ap (λ r. (ok r.0, holding l sound state')) same)
            ∙ ap (λ (rs : List (Result RateLimitDecision)). locked_until l b c ∷ rs)
                (replies-locked l sound peer b cs state' (there ∙ ap (λ r. some r.1) same) full
                  young.1 (omega (arith, room, size)))
            ∙ ap (map (locked_until l b)) (sym (calls_of-own peer q c cs e)))
    ]

-- A peer that spent its failures is denied by every later call, consultation or failure, until the
-- whole window and lockout have passed since its bucket started, whatever calls of other peers come
-- in between; each answer names the whole seconds left, at least one. The lock is sound, the peer's
-- bucket is in the map, all the calls come before its end, and the map has room for a bucket for
-- each of them, so that none is evicted.
pub replies-deny :
    (l : AdminAuthRateLimiter) (peer : Text) (b : PeerBucket) (cs : List (Text × Call))
    → l.poisoned ≡ false
    → find peer l.state ≡ some b
    → l.max_auth_failures ≤ b.consumed
    → All (λ (x : Text × Call). instant x.1 - b.started_at < bucket_lifetime l) cs
    → length l.state + length cs ≤ max_tracked_peers
    → replies peer cs l ≡ map (locked_until l b) (calls_of peer cs)
replies-deny l peer b cs sound h full young room =
    replies-locked l sound peer b cs l.state h full young room

-- How many failures of a peer are let through, among the calls of all peers.
abbrev tally : Call → Result RateLimitDecision → ℕ → ℕ
tally (failed _) (ok allow) n = suc n
tally _ _ n = n

abbrev pub failures_passed : Text → List (Text × Call) → AdminAuthRateLimiter → ℕ
failures_passed peer [] l = 0
failures_passed peer ((q, c) ∷ cs) l =
    let (answer, l') = call l q c in
    let rest = failures_passed peer cs l' in if text_eq peer q then tally c answer rest else rest

abbrev is_failure : Call → ℕ
is_failure (consult _) = 0
is_failure (failed _) = 1

abbrev pub failures_of : Text → List (Text × Call) → ℕ
failures_of peer [] = 0
failures_of peer ((q, c) ∷ cs) =
    let rest = failures_of peer cs in if text_eq peer q then is_failure c + rest else rest

failures_passed-cons_own :
    (peer q : Text) (c : Call) (cs : List (Text × Call)) (l l' : AdminAuthRateLimiter)
    (answer : Result RateLimitDecision)
    → text_eq peer q ≡ true
    → call l q c ≡ (answer, l')
    → failures_passed peer ((q, c) ∷ cs) l ≡ tally c answer (failures_passed peer cs l')
failures_passed-cons_own peer q c cs l l' answer e h = rw (e, h) refl

failures_passed-cons_other :
    (peer q : Text) (c : Call) (cs : List (Text × Call)) (l l' : AdminAuthRateLimiter)
    → text_eq peer q ≡ false
    → (call l q c).1 ≡ l'
    → failures_passed peer ((q, c) ∷ cs) l ≡ failures_passed peer cs l'
failures_passed-cons_other peer q c cs l l' e h = rw (e, h) refl

within_lifetime :
    (l : AdminAuthRateLimiter) (age : ℕ) → age < l.failure_window → age < bucket_lifetime l
unfolding bucket_lifetime
within_lifetime l age h = omega (arith, h)

-- What a call adds to the failures let through, and to the bucket.
effect-tally :
    (l : AdminAuthRateLimiter) (b : PeerBucket) (c : Call) (n m : ℕ)
    → instant c - b.started_at < l.failure_window
    → n ≡ min (l.max_auth_failures - 1 - (effect l b c).1.consumed) m
    → ((effect l b c).1.started_at ≡ b.started_at)
      × (tally c (ok (effect l b c).0) n
          ≡ min (l.max_auth_failures - 1 - b.consumed) (is_failure c + m))
effect-tally l b (consult now) n m counting h = (refl, ground (arith, h))
effect-tally l b (failed now) n m counting h =
    elim (Bool-cases (ltb (suc b.consumed) l.max_auth_failures)) [
      | inl more ↦
          (let same = effect-counted l b now counting (ground (arith, more)) in
            (
              ap (λ r. r.1.started_at) same,
              ap (λ r. tally (failed now) (ok r.0) n) same
                  ∙ ground (arith, more, h, ap (λ r. r.1.consumed) same),
            ))
      | inr less ↦ elim (Bool-cases (suc b.consumed == l.max_auth_failures)) [
        | inl last ↦
            (let same =
                effect-last l b now counting
                  ((==_iff (suc b.consumed) l.max_auth_failures).0 last) in
              (
                ap (λ r. r.1.started_at) same,
                ap (λ r. tally (failed now) (ok r.0) n) same
                    ∙ ground (arith, last, h, ap (λ r. r.1.consumed) same),
              ))
        | inr spent ↦
            (let same =
                effect-locked l b (failed now) (ground (arith, less, spent))
                  (within_lifetime l (now - b.started_at) counting) in
              (
                ap (λ r. r.1.started_at) same,
                ap (λ r. tally (failed now) (ok r.0) n) same
                    ∙ ground (arith, less, spent, h, ap (λ r. r.1.consumed) same),
              ))
      ]
    ]

failures-counted :
    (l : AdminAuthRateLimiter) (sound : l.poisoned ≡ false) (peer : Text) (cs : List (Text × Call))
    (state : Peers) (b : PeerBucket)
    → find peer state ≡ some b
    → All (λ (x : Text × Call). instant x.1 - b.started_at < l.failure_window) cs
    → length state + length cs ≤ max_tracked_peers
    → failures_passed peer cs (holding l sound state)
      ≡ min (l.max_auth_failures - 1 - b.consumed) (failures_of peer cs)
failures-counted l sound peer [] state b h counting room = omega arith
failures-counted l sound peer ((q, c) ∷ cs) state b h counting room =
    let young = within_lifetime l (instant c - b.started_at) counting.0 in
    elim (Bool-cases (text_eq peer q)) [
      | inr ne ↦
          (let apart : peer ≢ q = λ e. cc ((text_eq_iff peer q).1 e, ne) in
            let (state', step, there, size) =
              call-other l sound peer q c state b apart h young (omega (arith, room)) in
            ground (
              arith,
              ne,
              failures_passed-cons_other peer q c cs (holding l sound state)
                  (holding l sound state') ne step,
              failures-counted l sound peer cs state' b there counting.1
                  (omega (arith, room, size)),
            ))
      | inl e ↦
          (let (state', (step, there, size)) = call-own l peer c state b sound h young in
            let step' =
              subst
                (λ (j : Text).
                  call (holding l sound state) j c ≡ (ok (effect l b c).0, holding l sound state'))
                ((text_eq_iff peer q).0 e) step in
            let start : (effect l b c).1.started_at ≡ b.started_at =
              (effect-tally l b c (min (l.max_auth_failures - 1 - (effect l b c).1.consumed) 0) 0
                counting.0 refl).0 in
            let ih =
              failures-counted l sound peer cs state' (effect l b c).1 there
                (subst (λ (t : ℕ). All (λ (x : Text × Call). instant x.1 - t < l.failure_window) cs)
                  (sym start) counting.1)
                (omega (arith, room, size)) in
            let sum =
              (effect-tally l b c (failures_passed peer cs (holding l sound state'))
                (failures_of peer cs) counting.0 ih).1 in
            ground (
              arith,
              e,
              failures_passed-cons_own peer q c cs (holding l sound state) (holding l sound state')
                    (ok (effect l b c).0) e step'
                  ∙ sum,
            ))
    ]

-- Of the failures of a tracked peer in one counting window, the limiter lets through one fewer than
-- its bucket has left, or all of them where they are fewer, whatever consultations of the peer and
-- calls of other peers come in between. The lock is sound, the peer's bucket is in the map, and the
-- map has room for a bucket for each call, so that none is evicted.
pub failures_passed-budget :
    (l : AdminAuthRateLimiter) (peer : Text) (b : PeerBucket) (cs : List (Text × Call))
    → l.poisoned ≡ false
    → find peer l.state ≡ some b
    → All (λ (x : Text × Call). instant x.1 - b.started_at < l.failure_window) cs
    → length l.state + length cs ≤ max_tracked_peers
    → failures_passed peer cs l ≡ min (l.max_auth_failures - 1 - b.consumed) (failures_of peer cs)
failures_passed-budget l peer b cs sound h counting room =
    failures-counted l sound peer cs l.state b h counting room
