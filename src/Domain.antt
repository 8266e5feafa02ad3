-- ===== src/Domain.antt =====
-- crates/core/src/domain: the plain data of the service.
pub mod Session
pub mod Audit
pub mod User
pub mod Operator
