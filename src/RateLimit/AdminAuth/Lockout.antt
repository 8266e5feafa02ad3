-- ===== src/RateLimit/AdminAuth/Lockout.antt =====
-- crates/adapters/src/rate_limit/mod.rs: when a peer is locked out, and for how long.
use oidc_exchange.Base.{
  ℕ, suc, ◌+◌, ◌-◌, ◌≡◌, ◌≤◌, ◌<◌, refl, ap, ◌∙◌, false, some, List, [], ◌∷◌, arith, Text, text_Eq,
  find, write, keep, find-keep, find-write_self,
}
use oidc_exchange.Error.{Result, ok}
use oidc_exchange.RateLimit.Key.{RateLimitDecision, allow, deny}
use oidc_exchange.RateLimit.AdminAuth.{
  PeerBucket, Peers, AdminAuthRateLimiter, bucket_lifetime, unexpired, live_bucket, remaining_secs,
  decision_at, with_state, check_peer, rolled, record_failure, consume_peer, auth_check_at,
  consume_at,
}

pub live_bucket-some :
    (lifetime : ℕ) (state : Peers) (peer : Text) (now : ℕ) (b : PeerBucket)
    → find peer state ≡ some b
    → now - b.started_at < lifetime
    → (live_bucket lifetime state peer now ≡ some (b, keep (unexpired lifetime now) state))
      × (find peer (keep (unexpired lifetime now) state) ≡ some b)
unfolding live_bucket
live_bucket-some lifetime state peer now b h young =
    let there = find-keep (unexpired lifetime now) peer b state h (ground (arith, young)) in
    (ground (arith, there), there)

-- The two calls a peer's request can make, with their instants.
pub data Call : Type 0 where
  consult : ℕ → Call
  failed : ℕ → Call

abbrev pub instant : Call → ℕ
instant (consult now) = now
instant (failed now) = now

unfoldable pub call :
    AdminAuthRateLimiter → Text → Call → Result RateLimitDecision × AdminAuthRateLimiter
unfolding auth_check_at consume_at
call l peer (consult now) = auth_check_at l peer now
call l peer (failed now) = consume_at l peer now

-- What a call does to a peer's bucket that has not expired.
abbrev pub effect : AdminAuthRateLimiter → PeerBucket → Call → RateLimitDecision × PeerBucket
effect l b (consult now) = (decision_at b now (bucket_lifetime l) l.max_auth_failures, b)
effect l b (failed now) =
    record_failure (bucket_lifetime l) l.max_auth_failures (now - b.started_at)
      (rolled (bucket_lifetime l) l.failure_window l.max_auth_failures b now)

-- A call inside the lifetime of the peer's bucket answers by that bucket.
call-effect :
    (l : AdminAuthRateLimiter) (peer : Text) (c : Call) (state : Peers) (b : PeerBucket)
    → l.poisoned ≡ false
    → find peer state ≡ some b
    → instant c - b.started_at < bucket_lifetime l
    → (state' : Peers) × ((call (record l { state = state }) peer c
          ≡ (ok (effect l b c).0, record l { state = state' }))
        × (find peer state' ≡ some (effect l b c).1))
unfolding call bucket_lifetime with_state check_peer consume_peer
call-effect l peer (consult now) state b sound h young =
    let (live, there) = live_bucket-some (bucket_lifetime l) state peer now b h young in
    (keep (unexpired (bucket_lifetime l) now) state, (ground (arith, sound, live), there))
call-effect l peer (failed now) state b sound h young =
    let (live, there) = live_bucket-some (bucket_lifetime l) state peer now b h young in
    let kept : Peers = keep (unexpired (bucket_lifetime l) now) state in
    let bucket' : PeerBucket = (effect l b (failed now)).1 in
    (
      write peer bucket' kept,
      (ground (arith, sound, live), find-write_self peer bucket' b kept there),
    )

-- One call of a peer after another.
abbrev pub answers : AdminAuthRateLimiter → Text → List Call → List (Result RateLimitDecision)
answers l peer [] = []
answers l peer (c ∷ cs) = let (answer, l') = call l peer c in answer ∷ answers l' peer cs

pub effect-locked :
    (l : AdminAuthRateLimiter) (b : PeerBucket) (c : Call)
    → l.max_auth_failures ≤ b.consumed
    → instant c - b.started_at < bucket_lifetime l
    → effect l b c ≡ (deny (remaining_secs (bucket_lifetime l) (instant c - b.started_at)), b)
unfolding bucket_lifetime decision_at record_failure rolled remaining_secs
effect-locked l b (consult now) full young = ground (arith, full, young)
effect-locked l b (failed now) full young = ground (arith, full, young)

answers-cons :
    (l l' : AdminAuthRateLimiter) (peer : Text) (c : Call) (cs : List Call)
    (answer : Result RateLimitDecision) (rest : List (Result RateLimitDecision))
    → call l peer c ≡ (answer, l')
    → answers l' peer cs ≡ rest
    → answers l peer (c ∷ cs) ≡ answer ∷ rest
answers-cons l l' peer c cs answer rest e h = rw (e, h)

module _ (l : AdminAuthRateLimiter) (b : PeerBucket) (now : ℕ)
    (counting : now - b.started_at < l.failure_window) where
  abbrev pub next : PeerBucket
  next = record b { consumed = b.consumed + 1 }

  pub effect-counted :
      suc b.consumed < l.max_auth_failures → effect l b (failed now) ≡ (allow, next)
  unfolding bucket_lifetime record_failure rolled
  effect-counted some_left = ground (arith, counting, some_left)

  pub effect-last :
      suc b.consumed ≡ l.max_auth_failures
      → effect l b (failed now)
        ≡ (deny (remaining_secs (bucket_lifetime l) (now - b.started_at)), next)
  unfolding bucket_lifetime record_failure rolled remaining_secs
  effect-last last = ground (arith, counting, last)

-- Where one failure is the budget, a failure that rolls over a closed window is told to wait for
-- what the old bucket had left, while a consultation at the same instant is told the whole
-- lifetime: the answer to the failure is computed from the age of the bucket it replaced. The lock
-- is sound, and the peer's bucket is unspent, with its window closed and its lifetime not over.
pub consume_at-rolled_retry :
    (l : AdminAuthRateLimiter) (peer : Text) (b : PeerBucket) (now : ℕ)
    → l.poisoned ≡ false
    → l.max_auth_failures ≡ 1
    → find peer l.state ≡ some b
    → b.consumed ≡ 0
    → l.failure_window ≤ now - b.started_at
    → now - b.started_at < bucket_lifetime l
    → answers l peer (failed now ∷ consult now ∷ [])
      ≡ ok (deny (remaining_secs (bucket_lifetime l) (now - b.started_at)))
        ∷ ok (deny (remaining_secs (bucket_lifetime l) 0))
        ∷ []
unfolding bucket_lifetime record_failure rolled remaining_secs decision_at
consume_at-rolled_retry l peer b now sound budget h unspent closed young =
    let (state', (e, there)) = call-effect l peer (failed now) l.state b sound h young in
    let reborn : PeerBucket = record { started_at = now; consumed = 1 } in
    let same : effect l b (failed now)
        ≡ (deny (remaining_secs (bucket_lifetime l) (now - b.started_at)), reborn) =
      ground (arith, budget, unspent, closed, young) in
    let alive : now - now < bucket_lifetime l = ground (arith, young) in
    let (state'', (e', there')) =
      call-effect l peer (consult now) state' reborn sound (there ∙ ap (λ r. some r.1) same)
        alive in
    let locked : effect l reborn (consult now)
        ≡ (deny (remaining_secs (bucket_lifetime l) 0), reborn) =
      ground (arith, budget, young) in
    answers-cons l (record l { state = state' }) peer (failed now) (consult now ∷ [])
      (ok (deny (remaining_secs (bucket_lifetime l) (now - b.started_at))))
      (ok (deny (remaining_secs (bucket_lifetime l) 0)) ∷ [])
      (e ∙ ap (λ r. (ok r.0, record l { state = state' })) same)
      (answers-cons (record l { state = state' }) (record l { state = state'' }) peer (consult now)
        [] (ok (deny (remaining_secs (bucket_lifetime l) 0))) []
        (e' ∙ ap (λ r. (ok r.0, record l { state = state'' })) locked) refl)
