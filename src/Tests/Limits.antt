-- ===== src/Tests/Limits.antt =====
-- The limiters at concrete keys and instants, in nanoseconds.
use oidc_exchange.Base.{
  ℕ, ◌≡◌, ◌≤◌, refl, false, [], ◌∷◌, length, Text, codes, find, text_eq, arith,
}
use oidc_exchange.Error.{ok}
use oidc_exchange.RateLimit.Key.{RateLimitKey, client_addr, deny, key_eq}
use oidc_exchange.RateLimit.FixedWindow.{FixedWindowRateLimiter, for_key, check_at}
use oidc_exchange.RateLimit.FixedWindow.Among.{passed, passed-budget}
use oidc_exchange.RateLimit.FixedWindow.Bounds.{check_at-length}
use oidc_exchange.RateLimit.AdminAuth.{AdminAuthRateLimiter, bucket_lifetime, remaining_secs}
use oidc_exchange.RateLimit.AdminAuth.Lockout.{consult, failed, answers, consume_at-rolled_retry}
use oidc_exchange.RateLimit.AdminAuth.Among.{
  replies, replies-deny, failures_passed, failures_passed-budget,
}

abbrev caller : RateLimitKey
caller = client_addr (codes "192.0.2.1")

abbrev limiter : FixedWindowRateLimiter
limiter = record {
  window = 60_000_000_000;
  budgets = record { per_ip = 2; per_ip_failures = 1; per_subject = 1; per_provider = 1 };
  max_entries = 10;
  state = [];
}

abbrev neighbour : RateLimitKey
neighbour = client_addr (codes "192.0.2.2")

-- Four checks of a caller with a budget of two, and two of another caller among them.
passed-budget_example :
    passed caller
      ((caller, 5) ∷ (neighbour, 5) ∷ (caller, 6) ∷ (caller, 7) ∷ (neighbour, 9) ∷ (caller, 8) ∷ [])
      limiter
    ≡ 2
unfolding for_key find key_eq text_eq
passed-budget_example =
    passed-budget limiter 2 caller 5
      ((neighbour, 5) ∷ (caller, 6) ∷ (caller, 7) ∷ (neighbour, 9) ∷ (caller, 8) ∷ []) refl refl
      refl (omega arith, (omega arith, (omega arith, (omega arith, (omega arith, tt)))))
      (omega arith)

check_at-length_example :
    let l' = (check_at limiter caller 5).1 in
    (length l'.state ≤ l'.max_entries) × (l'.max_entries ≡ 10)
check_at-length_example = check_at-length limiter caller 5 refl (omega arith)

abbrev peer : Text
peer = codes "198.51.100.7"

abbrev tracked : ℕ → ℕ → AdminAuthRateLimiter
tracked budget consumed = record {
  failure_window = 60_000_000_000;
  lockout = 300_000_000_000;
  max_auth_failures = budget;
  state = (peer, record { started_at = 0; consumed = consumed }) ∷ [];
  poisoned = false;
}

abbrev neighbour_peer : Text
neighbour_peer = codes "198.51.100.8"

replies-deny_example :
    replies peer
      ((peer, consult 1_000_000_000)
        ∷ (neighbour_peer, failed 2)
        ∷ (peer, failed 60_000_000_000)
        ∷ [])
      (tracked 3 3)
    ≡ ok (deny 359) ∷ ok (deny 300) ∷ []
unfolding find text_eq bucket_lifetime remaining_secs
replies-deny_example =
    replies-deny (tracked 3 3) peer (record { started_at = 0; consumed = 3 })
      ((peer, consult 1_000_000_000)
        ∷ (neighbour_peer, failed 2)
        ∷ (peer, failed 60_000_000_000)
        ∷ [])
      refl refl (omega arith) (omega arith, (omega arith, (omega arith, tt))) (omega arith)

failures_passed-budget_example :
    failures_passed peer
      ((peer, failed 1)
        ∷ (peer, consult 2)
        ∷ (neighbour_peer, failed 2)
        ∷ (peer, failed 3)
        ∷ (peer, failed 4)
        ∷ [])
      (tracked 3 0)
    ≡ 2
unfolding find text_eq
failures_passed-budget_example =
    failures_passed-budget (tracked 3 0) peer (record { started_at = 0; consumed = 0 })
      ((peer, failed 1)
        ∷ (peer, consult 2)
        ∷ (neighbour_peer, failed 2)
        ∷ (peer, failed 3)
        ∷ (peer, failed 4)
        ∷ [])
      refl refl (omega arith, (omega arith, (omega arith, (omega arith, (omega arith, tt)))))
      (omega arith)

consume_at-rolled_retry_example :
    answers (tracked 1 0) peer (failed 100_000_000_000 ∷ consult 100_000_000_000 ∷ [])
    ≡ ok (deny 260) ∷ ok (deny 360) ∷ []
unfolding find text_eq bucket_lifetime remaining_secs
consume_at-rolled_retry_example =
    consume_at-rolled_retry (tracked 1 0) peer (record { started_at = 0; consumed = 0 })
      100_000_000_000 refl refl refl refl (omega arith) (omega arith)
