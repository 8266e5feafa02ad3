-- ===== src/Lmdb/SingleUse.antt =====
-- crates/adapters/src/lmdb/mod.rs: the claims on single-use records.
pub mod Claims
pub mod Sweep
use oidc_exchange.Base.{
  ℕ, Bool, true, false, Option, none, some, ltb, if◌then◌else◌, Text, is_empty, get, put, delete,
}
use oidc_exchange.Error.{Result, ok, panicked}
use oidc_exchange.Lmdb.{Dbs, Lmdb, transaction}

is_live : ℕ → Option ℕ → Bool
is_live now none = false
is_live now (some expires_at) = ltb now expires_at

-- The body of the write transaction of a claim; `now` is the clock it reads.
unfoldable pub put_in : Text → ℕ → ℕ → Dbs → Bool × Dbs
unfolding is_live
put_in key expires_at now dbs =
    if is_live now (get key dbs.single_use)
    then (false, dbs)
    else (true, record dbs { single_use = put key expires_at dbs.single_use })

unfoldable pub put_single_use : Text → ℕ → ℕ → Lmdb → Result Bool × Lmdb
put_single_use key expires_at now r =
    if is_empty key
    then (panicked, r)
    else transaction (λ dbs. ok (put_in key expires_at now dbs)) r

-- The body of the write transaction of a burn: what is there goes, live or not.
unfoldable pub take_in : Text → ℕ → Dbs → Bool × Dbs
unfolding is_live
take_in key now dbs =
    (is_live now (get key dbs.single_use), record dbs { single_use = delete key dbs.single_use })

unfoldable pub take_single_use : Text → ℕ → Lmdb → Result Bool × Lmdb
take_single_use key now r =
    if is_empty key then (panicked, r) else transaction (λ dbs. ok (take_in key now dbs)) r
