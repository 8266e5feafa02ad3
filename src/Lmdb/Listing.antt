-- ===== src/Lmdb/Listing.antt =====
-- crates/adapters/src/lmdb/mod.rs: the methods over all sessions of a user, or of the store.
use oidc_exchange.Base.{
  ℕ, ◌+◌, Option, none, some, List, [], ◌∷◌, ◌++◌, ◌&&◌, ltb, if◌then◌else◌, Text, codes, text_eq,
  is_empty, Database, get, prefix_iter, length, take,
}
use oidc_exchange.Error.{Result, ok, err, panicked, assert, store_error, ◌>>=◌, ◌>>◌}
use oidc_exchange.Domain.Session.{Session, RetiredRefreshToken}
use oidc_exchange.Lmdb.{Dbs, Lmdb, remove_live_entry, remove_retired_entry, transaction}

unfoldable pub user_entries : Text → Dbs → List (Text × Text)
user_entries user_id dbs = prefix_iter (user_id ++ b':' ∷ []) dbs.user_sessions

-- One round of the listing: what the index names and the store still holds.
listed : Text → ℕ → Option Session → List Session → List Session
listed user_id now none live = live
listed user_id now (some session) live =
    if text_eq session.user_id user_id && ltb now session.expires_at then session ∷ live else live

listed_sessions : Text → ℕ → Dbs → List (Text × Text) → List Session
unfolding listed
listed_sessions user_id now dbs [] = []
listed_sessions user_id now dbs ((token_hash, v) ∷ rest) =
    listed user_id now (get token_hash dbs.sessions) (listed_sessions user_id now dbs rest)

-- `sort_by_key(|a| Reverse(a.created_at))`: the standard library's sort is stable.
unfoldable pub insert_newest : Session → List Session → List Session
insert_newest s [] = s ∷ []
insert_newest s (t ∷ rest) =
    let later = insert_newest s rest in
    if ltb s.created_at t.created_at then t ∷ later else s ∷ t ∷ rest

unfoldable pub sort_newest : List Session → List Session
unfolding insert_newest
sort_newest [] = []
sort_newest (s ∷ rest) = insert_newest s (sort_newest rest)

-- The body of the read transaction.
unfoldable pub list_in : Text → ℕ → ℕ → Dbs → List Session
unfolding listed_sessions
list_in user_id now limit dbs =
    take limit (sort_newest (listed_sessions user_id now dbs (user_entries user_id dbs)))

unfoldable pub list_live_sessions : Text → ℕ → ℕ → Lmdb → Result (List Session) × Lmdb
list_live_sessions user_id now limit r =
    transaction (λ dbs. ok (list_in user_id now limit dbs, dbs)) r

unfoldable pub count_in : ℕ → Database Session → ℕ
count_in now [] = 0
count_in now ((_, session) ∷ rest) =
    let others = count_in now rest in if ltb now session.expires_at then others + 1 else others

unfoldable pub count_active_sessions : ℕ → Lmdb → Result ℕ × Lmdb
count_active_sessions now r = transaction (λ dbs. ok (count_in now dbs.sessions, dbs)) r

owned : Text → Text → Option Session → Result Session
owned user_id token_hash none = err (
    store_error
      (codes "user_sessions names live session " ++ (token_hash ++ codes " but none is stored")))
owned user_id token_hash (some session) = do assert (text_eq session.user_id user_id); ok session

-- The user's live generations, off the index.
owned_sessions : Text → Dbs → List (Text × Text) → Result (List (Text × Session))
unfolding owned
owned_sessions user_id dbs [] = ok []
owned_sessions user_id dbs ((token_hash, v) ∷ rest) = do
  session ← owned user_id token_hash (get token_hash dbs.sessions)
  others ← owned_sessions user_id dbs rest
  ok ((token_hash, session) ∷ others)

-- The user's retirement records, by a scan.
owned_records : Text → Database RetiredRefreshToken → List RetiredRefreshToken
owned_records user_id [] = []
owned_records user_id ((_, record') ∷ rest) =
    let others = owned_records user_id rest in
    if text_eq record'.user_id user_id then record' ∷ others else others

remove_sessions : List (Text × Session) → Dbs → Dbs
remove_sessions [] dbs = dbs
remove_sessions ((token_hash, session) ∷ rest) dbs =
    remove_sessions rest (remove_live_entry dbs token_hash session).1

remove_records : List RetiredRefreshToken → Dbs → Dbs
remove_records [] dbs = dbs
remove_records (record' ∷ rest) dbs = remove_records rest (remove_retired_entry dbs record').1

-- The body of the write transaction.
unfoldable pub revoke_all_in : Text → Dbs → Result (ℕ × Dbs)
unfolding owned_sessions owned_records remove_sessions remove_records
revoke_all_in user_id dbs = do
  live ← owned_sessions user_id dbs (user_entries user_id dbs)
  let dead = owned_records user_id dbs.retired_tokens
  ok (length live, remove_records dead (remove_sessions live dbs))

unfoldable pub revoke_all_user_sessions : Text → Lmdb → Result ℕ × Lmdb
revoke_all_user_sessions user_id r =
    if is_empty user_id then (panicked, r) else transaction (revoke_all_in user_id) r
