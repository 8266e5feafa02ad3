-- ===== src/Lmdb/Family.antt =====
-- Revoking a family: its entries in the index, the two removing loops, and the whole.
pub mod Entries
pub mod Loops
pub mod Revoke
