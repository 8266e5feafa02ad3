-- ===== src/RateLimit.antt =====
-- The rate limits: crates/core/src/domain/audit.rs (keys and decisions), the fixed window of
-- crates/server/src/middleware/throttle.rs, and the lockout of operators of
-- crates/adapters/src/rate_limit/mod.rs. An instant is a number of nanoseconds.
pub mod Key
pub mod FixedWindow
pub mod AdminAuth
