-- ===== src/Sqlite/Listing.antt =====
-- crates/adapters/src/sqlite/mod.rs: the paged listing of users (`list_users`), newest first.
pub mod Ordered
pub mod Walk
use oidc_exchange.Base.{
  ℕ, zero, suc, ◌+◌, Bool, ◌&&◌, ◌||◌, Option, none, some, List, [], ◌∷◌, ◌++◌, Text, text_eq,
  text_lt, ltb, leb, length, take, keep, if◌then◌else◌,
}
use oidc_exchange.Error.{Result, ok, err, panicked, assert, ◌>>=◌, ◌>>◌}
use oidc_exchange.Domain.User.{User, UserPage, max_admin_page_size}
use oidc_exchange.Cursor.{CursorCodec, KeysetCursor, decode, encode}
use oidc_exchange.Sqlite.{Users}

-- A row's columns `created_at`, the text that it was stored as, and `id`.
abbrev pub Position : Type 0
Position = Text × Text

-- `(created_at < ?1) OR (created_at = ?1 AND id < ?2)`
unfoldable pub below : Position → Position → Bool
below p q = text_lt p.0 q.0 || (text_eq p.0 q.0 && text_lt p.1 q.1)

abbrev pub row_users : Users → List User
row_users [] = []
row_users ((_, u) ∷ rows) = u ∷ row_users rows

abbrev pub last_user : List User → Option User
last_user [] = none
last_user (u ∷ []) = some u
last_user (u ∷ v ∷ us) = last_user (v ∷ us)

module _ (codec : CursorCodec) where
  abbrev pub position : User → Position
  position u = (codec.to_rfc3339 u.created_at, u.id)

  unfoldable pub insert_row : User → List User → List User
  insert_row u [] = u ∷ []
  insert_row u (v ∷ vs) =
      let rest = insert_row u vs in if below (position v) (position u) then u ∷ v ∷ vs else v ∷ rest

  -- `ORDER BY created_at DESC, id DESC`
  unfoldable pub order_by : List User → List User
  order_by [] = []
  order_by (u ∷ us) = insert_row u (order_by us)

  -- The rows in that order, those that the condition of the statement keeps.
  abbrev pub selected : Option KeysetCursor → List User → List User
  selected none all = all
  selected (some k) all = keep (λ u. below (position u) (codec.to_rfc3339 k.created_at, k.id)) all

  -- The cursor of a page that others follow, after its last user.
  abbrev pub continued : List User → Result UserPage
  continued users = elim (last_user users) [
    | none ↦ panicked
    | some last ↦ encode codec (record { created_at = last.created_at; id = last.id }) >>= λ c.
        ok (record { users = users; next_cursor = some c })
  ]

  -- The page of the rows fetched, of which there may be one more than the limit.
  unfoldable pub page_of : ℕ → List User → Result UserPage
  page_of limit rows =
      if ltb limit (length rows)
      then continued (take limit rows)
      else ok (record { users = rows; next_cursor = none })

  -- `cursor.map(KeysetCursor::decode).transpose()`
  abbrev pub resume_after : Option Text → Result (Option KeysetCursor)
  resume_after none = ok none
  resume_after (some raw) = decode codec raw >>= λ k. ok (some k)

  unfoldable pub list_users : Option Text → ℕ → Users → Result UserPage
  list_users cursor limit rows =
      assert (leb 1 limit && leb limit max_admin_page_size)
      >> (resume_after cursor >>= λ at.
          let fetched = take (limit + 1) (selected at (order_by (row_users rows))) in
          assert (leb (length fetched) (limit + 1)) >> page_of limit fetched)

  -- A caller that asks for pages of a table at rest until none follows, with a bound on their number.
  abbrev pub walk : ℕ → ℕ → Users → Option Text → Option (List User)
  walk zero limit rows cursor = none
  walk (suc n) limit rows cursor = elim (list_users cursor limit rows) [
    | ok page ↦ elim page.next_cursor [
      | none ↦ some page.users
      | some c ↦ elim (walk n limit rows (some c)) [
        | none ↦ none
        | some us ↦ some (page.users ++ us)
      ]
    ]
    | _ ↦ none
  ]
