-- ===== src/Lmdb/Consistent.antt =====
-- The invariant of the LMDB databases: rows stand under their own hash, both indexes name exactly
-- the rows that are stored, no hash is live and retired at once, and a family has one live
-- generation at most.
pub mod Keys
pub mod Same
pub mod Remove
pub mod Forget
pub mod Retire
pub mod Install
use oidc_exchange.Base.{
  ℕ, ◌≡◌, ◌⊎◌, Bool, true, false, some, none, [], Text, is_empty, has_char, get, Distinct,
}
use oidc_exchange.Domain.Session.{Session, RetiredRefreshToken, is_valid_family_id}
use oidc_exchange.Lmdb.{Dbs, kind_live, kind_retired, user_session_key, family_index_key}

-- A live row under its hash. A user id has no colon, since the user index separates by one.
pub record SessionRow (d : Dbs) (h : Text) (s : Session) : Type 0 where
  pub hash : s.refresh_token_hash ≡ h
  pub owner : has_char b':' s.user_id ≡ false
  pub family : (s.family_id ≡ []) ⊎ (is_valid_family_id s.family_id ≡ true)
  pub listed : get (user_session_key s.user_id h) d.user_sessions ≡ some []
  pub filed :
      is_empty s.family_id ≡ false
      → get (family_index_key s.family_id h) d.family_index ≡ some kind_live
  pub not_retired : get h d.retired_tokens ≡ none

pub record RetiredRow (d : Dbs) (h : Text) (r : RetiredRefreshToken) : Type 0 where
  pub hash : r.refresh_token_hash ≡ h
  pub family : is_valid_family_id r.family_id ≡ true
  pub filed : get (family_index_key r.family_id h) d.family_index ≡ some kind_retired

-- An entry of the family index and the row that it names.
pub data Filing (d : Dbs) (k v : Text) : Type 0 where
  live :
      (s : Session) (h : Text)
      → get h d.sessions ≡ some s
      → is_empty s.family_id ≡ false
      → k ≡ family_index_key s.family_id h
      → v ≡ kind_live
      → Filing d k v
  retired :
      (r : RetiredRefreshToken) (h : Text)
      → get h d.retired_tokens ≡ some r
      → k ≡ family_index_key r.family_id h
      → v ≡ kind_retired
      → Filing d k v

pub record UserEntry (d : Dbs) (k : Text) : Type 0 where
  pub session : Session
  pub hash : Text
  pub stored : get hash d.sessions ≡ some session
  pub key : k ≡ user_session_key session.user_id hash

pub record Consistent (d : Dbs) : Type 0 where
  pub user_distinct : Distinct d.user_sessions
  pub index_distinct : Distinct d.family_index
  pub session_row : (h : Text) (s : Session) → get h d.sessions ≡ some s → SessionRow d h s
  pub retired_row :
      (h : Text) (r : RetiredRefreshToken) → get h d.retired_tokens ≡ some r → RetiredRow d h r
  pub successor :
      (h : Text) (r : RetiredRefreshToken) (s : Session)
      → get h d.retired_tokens ≡ some r
      → get r.successor_hash d.sessions ≡ some s
      → s.family_id ≡ r.family_id
  pub user_entry : (k v : Text) → get k d.user_sessions ≡ some v → UserEntry d k
  pub family_entry : (k v : Text) → get k d.family_index ≡ some v → Filing d k v
  pub one_live :
      (h j : Text) (s t : Session)
      → get h d.sessions ≡ some s
      → get j d.sessions ≡ some t
      → is_empty s.family_id ≡ false
      → s.family_id ≡ t.family_id
      → h ≡ j
