-- ===== src/Lmdb.antt =====
-- crates/adapters/src/lmdb/mod.rs: the session store on LMDB. The databases and the operations on
-- single entries stand here; the port's methods and the proofs are in the modules below.
pub mod Atomic
pub mod Calls
pub mod Reach
pub mod Consistent
pub mod Rotation
pub mod Resolve
pub mod Family
pub mod Sessions
pub mod Listing
pub mod Cleanup
pub mod SingleUse
use oidc_exchange.Base.{
  ℕ, ◌≡◌, Bool, true, false, Option, none, some, List, [], ◌∷◌, ◌++◌, ltb, if◌then◌else◌, Text,
  codes, text_eq, is_empty, Database, get, put, delete, contains_key, not, ◌||◌,
}
use oidc_exchange.Error.{Error, Result, ok, err, panicked, assert, store_error, ◌>>=◌, ◌>>◌}
use oidc_exchange.Domain.Session.{
  Session, RetiredRefreshToken, is_valid_family_id, retention_deadline,
}

-- Values of `family_index`.
abbrev pub kind_live : Text
kind_live = codes "live"

abbrev pub kind_retired : Text
kind_retired = codes "retired"

-- The named databases. Rows are kept decoded: `serde_json` reads back what it wrote.
pub record Dbs : Type 0 where
  pub sessions : Database Session
  pub user_sessions : Database Text
  pub retired_tokens : Database RetiredRefreshToken
  pub family_index : Database Text
  pub single_use : Database ℕ

-- An error of `heed`: whether it is `MDB_MAP_FULL`, and its text.
pub record HeedError : Type 0 where
  pub is_map_full : Bool
  pub detail : Text

-- The environment. `faults` says of each transaction to come whether LMDB fails it, and how;
-- `join_error` is the text of a panicked blocking task.
pub record Lmdb : Type 0 where
  pub dbs : Dbs
  pub faults : List (Option HeedError)
  pub join_error : Text
  pub reuse_retention_secs : ℕ

unfoldable pub user_session_key : Text → Text → Text
user_session_key user_id token_hash = user_id ++ b':' ∷ token_hash

unfoldable pub family_index_key : Text → Text → Text
family_index_key family_id token_hash = family_id ++ 0 ∷ token_hash

-- `remove_live_entry` and `remove_live_entry_raw`
unfoldable pub remove_live_entry : Dbs → Text → Session → Bool × Dbs
remove_live_entry dbs token_hash session = (
  contains_key token_hash dbs.sessions,
  record dbs {
    sessions = delete token_hash dbs.sessions;
    user_sessions = delete (user_session_key session.user_id token_hash) dbs.user_sessions;
    family_index =
        if is_empty session.family_id
        then dbs.family_index
        else delete (family_index_key session.family_id token_hash) dbs.family_index;
  },
)

-- `remove_retired_entry` and `remove_retired_entry_raw`
unfoldable pub remove_retired_entry : Dbs → RetiredRefreshToken → Bool × Dbs
remove_retired_entry dbs r = (
  contains_key r.refresh_token_hash dbs.retired_tokens,
  record dbs {
    retired_tokens = delete r.refresh_token_hash dbs.retired_tokens;
    family_index = delete (family_index_key r.family_id r.refresh_token_hash) dbs.family_index;
  },
)

unfoldable pub install_live_entry : Dbs → Session → Dbs
install_live_entry dbs session = record dbs {
  sessions = put session.refresh_token_hash session dbs.sessions;
  user_sessions =
      put (user_session_key session.user_id session.refresh_token_hash) [] dbs.user_sessions;
  family_index =
      if is_empty session.family_id
      then dbs.family_index
      else put (family_index_key session.family_id session.refresh_token_hash) kind_live
          dbs.family_index;
}

unfoldable pub retirement_record : Text → Session → Session → ℕ → ℕ → Result RetiredRefreshToken
retirement_record live_hash live replacement reuse_retention_secs now = do
  assert (text_eq live.refresh_token_hash live_hash)
  assert (is_valid_family_id live.family_id)
  expires_at ← retention_deadline now reuse_retention_secs replacement.expires_at
  ok (record {
    refresh_token_hash = live_hash;
    family_id = live.family_id;
    user_id = live.user_id;
    successor_hash = replacement.refresh_token_hash;
    retired_at = now;
    expires_at = expires_at;
  })

-- The two writes of a retirement.
unfoldable pub put_retired : Dbs → RetiredRefreshToken → Dbs
put_retired dbs r = record dbs {
  retired_tokens = put r.refresh_token_hash r dbs.retired_tokens;
  family_index =
      put (family_index_key r.family_id r.refresh_token_hash) kind_retired dbs.family_index;
}

abbrev pub settle : {A : Type 0} → Lmdb → Result (A × Dbs) → Result A × Lmdb
settle r (ok (a, dbs)) = (ok a, record r { dbs = dbs })
settle r (err e) = (err e, r)
settle r panicked = (err (store_error r.join_error), r)

unfoldable pub begin_txn :
    {A : Type 0} → (Dbs → Result (A × Dbs)) → List (Option HeedError) → Lmdb → Result A × Lmdb
begin_txn body [] r = settle r (body r.dbs)
begin_txn body (none ∷ rest) r = settle (record r { faults = rest }) (body r.dbs)
begin_txn body (some e ∷ rest) r = (err (store_error e.detail), record r { faults = rest })

-- One write transaction in a blocking task: what it returns is committed as a whole, an error or
-- a panic drops it.
unfoldable pub transaction : {A : Type 0} → (Dbs → Result (A × Dbs)) → Lmdb → Result A × Lmdb
unfolding begin_txn
transaction body r = begin_txn body r.faults r
