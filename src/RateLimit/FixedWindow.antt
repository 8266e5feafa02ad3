-- ===== src/RateLimit/FixedWindow.antt =====
-- crates/server/src/middleware/throttle.rs: the fixed-window limiter of the exchange plane.
pub mod Window
pub mod Bounds
pub mod Among
use oidc_exchange.Base.{
  ℕ, ◌+◌, ◌-◌, ◌/◌, ◌≡◌, ◌≤◌, Bool, true, false, ◌&&◌, not, Option, none, some, List, [], ◌∷◌,
  arith, ltb, ◌==◌, max, if◌then◌else◌, length, keep, Eq, find, remove, write, codes,
}
use oidc_exchange.Error.{Result, ok, err, panicked, config_error, ◌>>=◌}
use oidc_exchange.RateLimit.Key.{
  RateLimitKey, RateLimitDecision, allow, deny, client_addr, client_addr_failure, operator_auth,
  subject, provider, RateLimitKey-Eq,
}

pub record RateLimitBudgets : Type 0 where
  pub per_ip : ℕ
  pub per_ip_failures : ℕ
  pub per_subject : ℕ
  pub per_provider : ℕ

-- `RateLimitBudgets::for_key`; the key of the other plane is `unreachable!`.
unfoldable pub for_key : RateLimitBudgets → RateLimitKey → Result ℕ
for_key b (client_addr _) = ok b.per_ip
for_key b (client_addr_failure _) = ok b.per_ip_failures
for_key b (subject _ _) = ok b.per_subject
for_key b (provider _) = ok b.per_provider
for_key b (operator_auth _) = panicked

pub record Bucket : Type 0 where
  pub started_at : ℕ
  pub consumed : ℕ

abbrev pub Buckets : Type 0
Buckets = List (RateLimitKey × Bucket)

pub record FixedWindowRateLimiter : Type 0 where
  pub window : ℕ
  pub budgets : RateLimitBudgets
  pub max_entries : ℕ
  pub state : Buckets

-- `with_clock`
unfoldable pub with_clock : ℕ → RateLimitBudgets → ℕ → Result FixedWindowRateLimiter
with_clock window budgets max_entries =
    if window == 0
    then err (config_error (codes "rate limit window must be non-zero"))
    else if max_entries == 0
    then err (config_error (codes "rate limit max_entries must be non-zero"))
    else ok (record { window = window; budgets = budgets; max_entries = max_entries; state = [] })

-- `Duration::as_secs`, of nanoseconds.
abbrev pub as_secs : ℕ → ℕ
as_secs d = d / 1_000_000_000

abbrev pub fresh : ℕ → ℕ → RateLimitKey × Bucket → Bool
fresh window now entry = ltb (now - entry.1.started_at) window

-- `min_by_key` on `started_at`: the first of the least.
unfoldable pub oldest : RateLimitKey × Bucket → Buckets → RateLimitKey × Bucket
oldest best [] = best
oldest best (entry ∷ rest) =
    oldest (if ltb entry.1.started_at best.1.started_at then entry else best) rest

unfoldable pub evict : Buckets → Buckets
unfolding oldest remove
evict [] = []
evict (entry ∷ rest) = remove (oldest entry rest).0 (entry ∷ rest)

-- The map in which `entry(key).or_insert` runs.
unfoldable pub make_room : ℕ → RateLimitKey → Buckets → Buckets
unfolding evict find
make_room max_entries key state = elim (find key state) [
  | some _ ↦ state
  | none ↦ if length state == max_entries then evict state else state
]

-- `entry(key).or_insert(..)` and the charge on the bucket.
unfoldable pub charge : ℕ → ℕ → RateLimitKey → ℕ → Bucket → RateLimitDecision × Bucket
charge window budget key now bucket =
    if ltb bucket.consumed budget
    then (allow, record bucket { consumed = bucket.consumed + 1 })
    else (deny (max (as_secs (window - (now - bucket.started_at))) 1), bucket)

unfoldable pub consume :
    ℕ → ℕ → RateLimitKey → ℕ → Buckets → Option Bucket → RateLimitDecision × Buckets
unfolding charge write
consume window budget key now state (some bucket) =
    let (decision, bucket') = charge window budget key now bucket in
    (decision, write key bucket' state)
consume window budget key now state none =
    let (decision, bucket') =
      charge window budget key now (record { started_at = now; consumed = 0 }) in
    (decision, (key, bucket') ∷ state)

-- The part of `check_at` that runs under the lock.
unfoldable pub check_in : ℕ → ℕ → ℕ → RateLimitKey → ℕ → Buckets → RateLimitDecision × Buckets
unfolding consume keep
check_in window max_entries budget key now state =
    let room = make_room max_entries key (keep (fresh window now) state) in
    consume window budget key now room (find key room)

unfoldable pub check_at :
    FixedWindowRateLimiter → RateLimitKey → ℕ → Result RateLimitDecision × FixedWindowRateLimiter
check_at l key now = elim (for_key l.budgets key) [
  | ok budget ↦
      if budget == 0
      then (ok allow, l)
      else (let (decision, state) = check_in l.window l.max_entries budget key now l.state in
          (ok decision, record l { state = state }))
  | err e ↦ (err e, l)
  | panicked ↦ (panicked, l)
]
