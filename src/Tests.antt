-- ===== src/Tests.antt =====
-- Runs of the modelled code, and the theorems applied to concrete states.
pub mod Rows
pub mod Store
pub mod Claims
pub mod Limits
pub mod Redemption
mod Toy
mod Tokens
mod Revocations
mod Listing
mod Responses
mod Admin
mod Assertions
