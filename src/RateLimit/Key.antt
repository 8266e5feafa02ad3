-- ===== src/RateLimit/Key.antt =====
-- crates/core/src/domain/audit.rs: who is limited, and what a limiter answers. An `IpAddr` is its
-- text.
use oidc_exchange.Base.{
  ℕ, ◌≡◌, ◌↔◌, Bool, true, false, ◌&&◌, Option, none, some, Text, text_eq, text_eq_iff, arith, Eq,
}

pub data RateLimitKey : Type 0 where
  client_addr client_addr_failure operator_auth : Text → RateLimitKey
  subject : Option Text → Text → RateLimitKey
  provider : Text → RateLimitKey

pub data RateLimitDecision : Type 0 where
  allow : RateLimitDecision
  deny : ℕ → RateLimitDecision

option_eq : Option Text → Option Text → Bool
option_eq none none = true
option_eq (some a) (some b) = text_eq a b
option_eq _ _ = false

option_eq_iff : (a b : Option Text) → (option_eq a b ≡ true) ↔ (a ≡ b)
unfolding option_eq
option_eq_iff none none = ground arith
option_eq_iff (some a) (some b) = ground (arith, text_eq_iff a b)
option_eq_iff _ _ = ground arith

-- `#[derive(PartialEq)]`
unfoldable pub key_eq : RateLimitKey → RateLimitKey → Bool
unfolding option_eq
key_eq (client_addr a) (client_addr b) = text_eq a b
key_eq (client_addr_failure a) (client_addr_failure b) = text_eq a b
key_eq (operator_auth a) (operator_auth b) = text_eq a b
key_eq (subject p h) (subject q k) = option_eq p q && text_eq h k
key_eq (provider a) (provider b) = text_eq a b
key_eq _ _ = false

pub key_eq_iff : (a b : RateLimitKey) → (key_eq a b ≡ true) ↔ (a ≡ b)
unfolding key_eq
key_eq_iff (client_addr a) (client_addr b) = ground (arith, text_eq_iff a b)
key_eq_iff (client_addr_failure a) (client_addr_failure b) = ground (arith, text_eq_iff a b)
key_eq_iff (operator_auth a) (operator_auth b) = ground (arith, text_eq_iff a b)
key_eq_iff (subject p h) (subject q k) = ground (arith, option_eq_iff p q, text_eq_iff h k)
key_eq_iff (provider a) (provider b) = ground (arith, text_eq_iff a b)
key_eq_iff _ _ = ground arith

instance abbrev pub RateLimitKey-Eq : Eq RateLimitKey
RateLimitKey-Eq = record { beq = key_eq; beq_iff = key_eq_iff }
