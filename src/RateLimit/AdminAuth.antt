-- ===== src/RateLimit/AdminAuth.antt =====
-- crates/adapters/src/rate_limit/mod.rs: the lockout of the operators of the admin plane. Failed
-- authentications are counted; a peer that used up its budget is denied until its bucket expires.
pub mod Lockout
pub mod Among
use oidc_exchange.Base.{
  ℕ, suc, ◌+◌, ◌-◌, ◌/◌, ◌≡◌, Bool, true, false, ◌&&◌, ◌||◌, not, Option, none, some, List, [], ◌∷◌,
  arith, ltb, leb, ◌==◌, max, if◌then◌else◌, length, keep, Text, text_Eq, text_eq, Eq, find, remove,
  write, codes,
}
use oidc_exchange.Error.{Result, ok, err, panicked, config_error}
use oidc_exchange.RateLimit.Key.{RateLimitKey, operator_auth, RateLimitDecision, allow, deny}
use oidc_exchange.RateLimit.FixedWindow.{as_secs}

abbrev pub max_tracked_peers : ℕ
max_tracked_peers = 4096

pub record PeerBucket : Type 0 where
  pub started_at : ℕ
  pub consumed : ℕ

abbrev pub Peers : Type 0
Peers = List (Text × PeerBucket)

-- `poisoned`: an update panicked while it held the lock.
pub record AdminAuthRateLimiter : Type 0 where
  pub failure_window : ℕ
  pub lockout : ℕ
  pub max_auth_failures : ℕ
  pub state : Peers
  pub poisoned : Bool

unfoldable pub new : ℕ → ℕ → ℕ → Result AdminAuthRateLimiter
new max_auth_failures failure_window lockout =
    if max_auth_failures == 0
    then err (config_error (codes "internal_api.max_auth_failures must be non-zero"))
    else if failure_window == 0
    then err (config_error (codes "internal_api.auth_failure_window must be non-zero"))
    else if lockout == 0
    then err (config_error (codes "internal_api.auth_lockout must be non-zero"))
    else ok (record {
      failure_window = failure_window;
      lockout = lockout;
      max_auth_failures = max_auth_failures;
      state = [];
      poisoned = false;
    })

unfoldable pub bucket_lifetime : AdminAuthRateLimiter → ℕ
bucket_lifetime l = l.failure_window + l.lockout

abbrev pub unexpired : ℕ → ℕ → Text × PeerBucket → Bool
unexpired lifetime now entry = ltb (now - entry.1.started_at) lifetime

-- `min_by_key` on `started_at`: the first of the least.
unfoldable pub earliest : Text × PeerBucket → Peers → Text × PeerBucket
earliest best [] = best
earliest best (entry ∷ rest) =
    earliest (if ltb entry.1.started_at best.1.started_at then entry else best) rest

-- The map after the insertion of a new peer at its head; `none` is the failed `assert_ne!`.
unfoldable pub shrink : Text × PeerBucket → Peers → Option Peers
unfolding earliest remove
shrink entry rest =
    let victim = (earliest entry rest).0 in
    if ltb max_tracked_peers (length (entry ∷ rest))
    then (if text_eq victim entry.0 then none else some (remove victim (entry ∷ rest)))
    else some (entry ∷ rest)

unfoldable pub live_bucket : ℕ → Peers → Text → ℕ → Option (PeerBucket × Peers)
unfolding find keep
live_bucket lifetime state peer now =
    let kept = keep (unexpired lifetime now) state in
    elim (find peer kept) [
      | some bucket ↦ some (bucket, kept)
      | none ↦
          (let fresh : PeerBucket = record { started_at = now; consumed = 0 } in
            elim (shrink (peer, fresh) kept) [ some state' ↦ some (fresh, state') | none ↦ none ])
    ]

unfoldable pub remaining_secs : ℕ → ℕ → ℕ
remaining_secs lifetime elapsed = max (as_secs (lifetime - elapsed)) 1

unfoldable pub decision_at : PeerBucket → ℕ → ℕ → ℕ → RateLimitDecision
unfolding remaining_secs
decision_at bucket now lifetime max_auth_failures =
    let elapsed = now - bucket.started_at in
    if ltb bucket.consumed max_auth_failures || leb lifetime elapsed
    then allow
    else deny (remaining_secs lifetime elapsed)

-- `with_state`: a poisoned lock lets the request through; a panic under the lock poisons it.
unfoldable pub with_state :
    AdminAuthRateLimiter
    → (Peers → Option (RateLimitDecision × Peers))
    → Result RateLimitDecision × AdminAuthRateLimiter
with_state l f = if l.poisoned then (ok allow, l) else elim (f l.state) [
  | some (decision, state) ↦ (ok decision, record l { state = state })
  | none ↦ (panicked, record l { poisoned = true })
]

unfoldable pub check_peer : ℕ → ℕ → Text → ℕ → Peers → Option (RateLimitDecision × Peers)
unfolding decision_at
check_peer lifetime max_auth_failures peer now state = elim (live_bucket lifetime state peer now) [
  | some (bucket, state') ↦ some (decision_at bucket now lifetime max_auth_failures, state')
  | none ↦ none
]

-- The bucket whose counting window closed without a lockout starts again.
unfoldable pub rolled : ℕ → ℕ → ℕ → PeerBucket → ℕ → PeerBucket
rolled lifetime failure_window max_auth_failures bucket now =
    let elapsed = now - bucket.started_at in
    if leb lifetime elapsed || (leb failure_window elapsed && ltb bucket.consumed max_auth_failures)
    then record { started_at = now; consumed = 0 }
    else bucket

-- `elapsed` is that of the bucket before it was rolled.
unfoldable pub record_failure : ℕ → ℕ → ℕ → PeerBucket → RateLimitDecision × PeerBucket
unfolding remaining_secs
record_failure lifetime max_auth_failures elapsed bucket =
    let charged : PeerBucket = record bucket { consumed = bucket.consumed + 1 } in
    if ltb bucket.consumed max_auth_failures
    then (if leb max_auth_failures charged.consumed
        then (deny (remaining_secs lifetime elapsed), charged)
        else (allow, charged))
    else (deny (remaining_secs lifetime elapsed), bucket)

unfoldable pub consume_peer : ℕ → ℕ → ℕ → Text → ℕ → Peers → Option (RateLimitDecision × Peers)
unfolding rolled record_failure write
consume_peer lifetime failure_window max_auth_failures peer now state =
    elim (live_bucket lifetime state peer now) [
      | some (bucket, state') ↦
          (let (decision, bucket') =
              record_failure lifetime max_auth_failures (now - bucket.started_at)
                (rolled lifetime failure_window max_auth_failures bucket now) in
            some (decision, write peer bucket' state'))
      | none ↦ none
    ]

unfoldable pub auth_check_at :
    AdminAuthRateLimiter → Text → ℕ → Result RateLimitDecision × AdminAuthRateLimiter
unfolding with_state check_peer
auth_check_at l peer now =
    with_state l (check_peer (bucket_lifetime l) l.max_auth_failures peer now)

unfoldable pub consume_at :
    AdminAuthRateLimiter → Text → ℕ → Result RateLimitDecision × AdminAuthRateLimiter
unfolding with_state consume_peer
consume_at l peer now =
    with_state l (consume_peer (bucket_lifetime l) l.failure_window l.max_auth_failures peer now)

-- The two operations of the port; `check_and_consume` is `consume`.
unfoldable pub auth_check :
    AdminAuthRateLimiter → RateLimitKey → ℕ → Result RateLimitDecision × AdminAuthRateLimiter
auth_check l (operator_auth peer) now = auth_check_at l peer now
auth_check l _ now = (panicked, l)

unfoldable pub auth_consume :
    AdminAuthRateLimiter → RateLimitKey → ℕ → Result RateLimitDecision × AdminAuthRateLimiter
auth_consume l (operator_auth peer) now = consume_at l peer now
auth_consume l _ now = (panicked, l)
