-- ===== src/Lmdb/Sessions.antt =====
-- crates/adapters/src/lmdb/mod.rs: the port's methods on one session or one family.
use oidc_exchange.Base.{
  ℕ, Bool, true, false, Option, none, some, List, [], ◌∷◌, ◌++◌, ◌+◌, leb, if◌then◌else◌, Text,
  codes, text_eq, is_empty, get, contains_key, prefix_iter, not, ◌||◌,
}
use oidc_exchange.Error.{Result, ok, err, panicked, assert, store_error, ◌>>=◌, ◌>>◌}
use oidc_exchange.Domain.Session.{
  Session, RetiredRefreshToken, RefreshResolution, live, superseded, retired, unknown,
  is_valid_family_id,
}
use oidc_exchange.Lmdb.{
  Dbs, Lmdb, kind_live, kind_retired, remove_live_entry, remove_retired_entry, install_live_entry,
  retirement_record, put_retired, transaction,
}

unfoldable pub store_refresh_token : Session → Lmdb → Result (Unit {0}) × Lmdb
store_refresh_token session r =
    if not (is_empty session.family_id || is_valid_family_id session.family_id)
      || is_empty session.refresh_token_hash
    then (panicked, r)
    else transaction (λ dbs. ok (tt, install_live_entry dbs session)) r

unfoldable pub get_session_by_refresh_token : Text → Lmdb → Result (Option Session) × Lmdb
get_session_by_refresh_token token_hash r =
    transaction (λ dbs. ok (get token_hash dbs.sessions, dbs)) r

-- The successor that a retirement record names, or its absence.
resolve_record : RetiredRefreshToken → Option Session → Result RefreshResolution
resolve_record record' (some successor) = do
  assert (text_eq successor.family_id record'.family_id)
  ok (superseded successor record'.retired_at)
resolve_record record' none = ok (retired record'.family_id record'.user_id record'.retired_at)

resolve_retired : ℕ → Dbs → Option RetiredRefreshToken → Result RefreshResolution
unfolding resolve_record
resolve_retired now dbs none = ok unknown
resolve_retired now dbs (some record') =
    if leb record'.expires_at now
    then ok unknown
    else resolve_record record' (get record'.successor_hash dbs.sessions)

resolve_live : Text → ℕ → Dbs → Option Session → Result RefreshResolution
unfolding resolve_retired
resolve_live token_hash now dbs (some session) = ok (live session)
resolve_live token_hash now dbs none = resolve_retired now dbs (get token_hash dbs.retired_tokens)

-- The body of the read transaction; `now` is the clock it reads.
unfoldable pub resolve_in : Text → ℕ → Dbs → Result RefreshResolution
unfolding resolve_live
resolve_in token_hash now dbs = resolve_live token_hash now dbs (get token_hash dbs.sessions)

unfoldable pub resolve_refresh_token : Text → ℕ → Lmdb → Result RefreshResolution × Lmdb
resolve_refresh_token token_hash now r =
    if is_empty token_hash
    then (panicked, r)
    else transaction (λ dbs. resolve_in token_hash now dbs >>= λ c. ok (c, dbs)) r

-- The retirement record of a winning rotation; a legacy row leaves none.
retire : Text → Session → Session → ℕ → ℕ → Dbs → Result Dbs
retire live_hash live' replacement reuse_retention_secs now dbs =
    if is_empty live'.family_id then ok dbs else (do
      record' ← retirement_record live_hash live' replacement reuse_retention_secs now
      ok (put_retired dbs record'))

swap : Text → Session → ℕ → ℕ → Dbs → Option Session → Result (Bool × Dbs)
unfolding retire
swap live_hash replacement reuse_retention_secs now dbs none = ok (false, dbs)
swap live_hash replacement reuse_retention_secs now dbs (some live') = do
  assert (is_empty live'.family_id || text_eq live'.family_id replacement.family_id)
  assert (text_eq live'.user_id replacement.user_id)
  assert (not (contains_key replacement.refresh_token_hash dbs.sessions))
  assert (not (contains_key replacement.refresh_token_hash dbs.retired_tokens))
  dbs' ←
      retire live_hash live' replacement reuse_retention_secs now
        (remove_live_entry dbs live_hash live').1
  ok (true, install_live_entry dbs' replacement)

-- The body of the write transaction.
unfoldable pub rotate_in : Text → Session → ℕ → ℕ → Dbs → Result (Bool × Dbs)
unfolding swap
rotate_in live_hash replacement reuse_retention_secs now dbs =
    swap live_hash replacement reuse_retention_secs now dbs (get live_hash dbs.sessions)

unfoldable pub rotate_refresh_token : Text → Session → ℕ → Lmdb → Result Bool × Lmdb
rotate_refresh_token live_hash replacement now r =
    if not (is_valid_family_id replacement.family_id)
      || text_eq live_hash replacement.refresh_token_hash
    then (panicked, r)
    else transaction (rotate_in live_hash replacement r.reuse_retention_secs now) r

drop_session : Text → Dbs → Option Session → Dbs
drop_session token_hash dbs none = dbs
drop_session token_hash dbs (some session) = (remove_live_entry dbs token_hash session).1

unfoldable pub revoke_session_in : Text → Dbs → Dbs
unfolding drop_session
revoke_session_in token_hash dbs = drop_session token_hash dbs (get token_hash dbs.sessions)

unfoldable pub revoke_session : Text → Lmdb → Result (Unit {0}) × Lmdb
revoke_session token_hash r =
    if is_empty token_hash
    then (panicked, r)
    else transaction (λ dbs. ok (tt, revoke_session_in token_hash dbs)) r

-- The hashes that the family index files under one kind.
unfoldable pub of_kind : Text → List (Text × Text) → List Text
of_kind kind [] = []
of_kind kind ((token_hash, k) ∷ rest) =
    let others = of_kind kind rest in if text_eq k kind then token_hash ∷ others else others

-- The `assert_eq!` on the kinds that are met.
unfoldable pub kinds_known : List (Text × Text) → Bool
kinds_known [] = true
kinds_known ((token_hash, k) ∷ rest) =
    let others = kinds_known rest in
    if text_eq k kind_live || text_eq k kind_retired then others else false

-- `format!("{what} {token_hash} but none is stored")`
abbrev dangling : Text → Text → Text
dangling what token_hash = what ++ (token_hash ++ codes " but none is stored")

remove_family_session : Text → Text → Dbs → Option Session → Result Dbs
remove_family_session family_id token_hash dbs none =
    err (store_error (dangling (codes "family_index names live session ") token_hash))
remove_family_session family_id token_hash dbs (some session) = do
  assert (text_eq session.family_id family_id)
  ok (remove_live_entry dbs token_hash session).1

remove_family_record : Text → Text → Dbs → Option RetiredRefreshToken → Result Dbs
remove_family_record family_id token_hash dbs none =
    err (store_error (dangling (codes "family_index names retired record ") token_hash))
remove_family_record family_id token_hash dbs (some record') = do
  assert (text_eq record'.family_id family_id)
  ok (remove_retired_entry dbs record').1

-- The two loops over the hashes of a family; the number counts what they removed.
unfoldable pub remove_family_sessions : Text → List Text → ℕ → Dbs → Result (ℕ × Dbs)
unfolding remove_family_session
remove_family_sessions family_id [] removed dbs = ok (removed, dbs)
remove_family_sessions family_id (token_hash ∷ rest) removed dbs =
    remove_family_session family_id token_hash dbs (get token_hash dbs.sessions)
    >>= remove_family_sessions family_id rest (removed + 1)

unfoldable pub remove_family_records : Text → List Text → ℕ → Dbs → Result (ℕ × Dbs)
unfolding remove_family_record
remove_family_records family_id [] removed dbs = ok (removed, dbs)
remove_family_records family_id (token_hash ∷ rest) removed dbs =
    remove_family_record family_id token_hash dbs (get token_hash dbs.retired_tokens)
    >>= remove_family_records family_id rest (removed + 1)

unfoldable pub family_entries : Text → Dbs → List (Text × Text)
family_entries family_id dbs = prefix_iter (family_id ++ 0 ∷ []) dbs.family_index

unfoldable pub revoke_family_wtxn : Text → Dbs → Result (ℕ × Dbs)
revoke_family_wtxn family_id dbs = do
  let entries = family_entries family_id dbs
  assert (kinds_known entries)
  (removed, dbs') ← remove_family_sessions family_id (of_kind kind_live entries) 0 dbs
  remove_family_records family_id (of_kind kind_retired entries) removed dbs'

unfoldable pub revoke_family : Text → Lmdb → Result ℕ × Lmdb
revoke_family family_id r =
    if not (is_valid_family_id family_id)
    then (panicked, r)
    else transaction (revoke_family_wtxn family_id) r
