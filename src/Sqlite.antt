-- ===== src/Sqlite.antt =====
-- crates/adapters/src/sqlite/mod.rs: the table of users, and its updates under optimistic concurrency.
-- The table is the list of its rows by id; a statement reads or writes it at once, and other writers
-- come between statements.
pub mod Atomic
pub mod Listing
pub mod Repository
use oidc_exchange.Base.{
  ℕ, zero, suc, ◌+◌, Bool, true, false, Option, none, some, List, [], ◌∷◌, ◌++◌, Text, codes, ◌==◌,
  if◌then◌else◌, Database, get, put,
}
use oidc_exchange.Error.{Result, ok, err, panicked, store_error, conflict}
use oidc_exchange.Domain.Audit.{Value}
use oidc_exchange.Domain.User.{User, UserPatch, UserStatus, NewUser, active}

abbrev pub Users : Type 0
Users = Database User

abbrev pub update_max_attempts : ℕ
update_max_attempts = 5

abbrev pub or_old : {A : Type 0} → Option A → A → A
or_old none a = a
or_old (some b) a = b

abbrev pub or_kept : Option Text → Option Text → Option Text
or_kept none a = a
or_kept (some b) a = some b

-- The user that an attempt builds from the row it read. A version never reaches the bound of `u64`.
unfoldable pub patched : UserPatch → ℕ → User → User
patched patch now user = record user {
  email = or_kept patch.email user.email;
  display_name = or_kept patch.display_name user.display_name;
  metadata = or_old patch.metadata user.metadata;
  claims = or_old patch.claims user.claims;
  status = or_old patch.status user.status;
  version = user.version + 1;
  updated_at = now;
}

-- The columns that the statement `UPDATE users SET .. version = version + 1` writes.
unfoldable pub written : User → User → User
written user row = record row {
  email = user.email;
  display_name = user.display_name;
  metadata = user.metadata;
  claims = user.claims;
  status = user.status;
  version = row.version + 1;
  updated_at = user.updated_at;
}

-- `WHERE id = ?7 AND version = ?8`: whether a row was affected.
unfoldable pub write_at : Text → ℕ → User → Users → Bool × Users
write_at id read_version user rows = elim (get id rows) [
  | none ↦ (false, rows)
  | some row ↦
      if row.version == read_version then (true, put id (written user row) rows) else (false, rows)
]

abbrev pub won : Bool × Users → User → Result (Option User) × Users
won (true, rows) user = (ok (some user), rows)
won (false, rows) user = (ok none, rows)

-- One cycle of read, patch and write; `meanwhile` is what other writers do between the two
-- statements.
unfoldable pub attempt :
    Text → UserPatch → ℕ → (Users → Users) → Users → Result (Option User) × Users
attempt id patch now meanwhile rows = elim (get id rows) [
  | none ↦ (err (store_error (codes "user not found: " ++ id)), rows)
  | some user ↦
      let next = patched patch now user in won (write_at id user.version next (meanwhile rows)) next
]

-- `retry_on_version_conflict`, with the attempts left; `meanwhile` is given for each of them.
unfoldable pub retry_on_version_conflict :
    ℕ → Text → (ℕ → Users → Result (Option User) × Users) → Users → Result User × Users
retry_on_version_conflict zero id try rows = (
  err (
      conflict (
        codes "update_user for "
        ++ id
        ++ codes " exhausted the retry budget (5 attempts) racing concurrent version conflicts")),
  rows,
)
retry_on_version_conflict (suc n) id try rows =
    let (a, rows') = try n rows in
    elim a [
      | ok (some user) ↦ (ok user, rows')
      | ok none ↦ retry_on_version_conflict n id try rows'
      | err e ↦ (err e, rows')
      | panicked ↦ (panicked, rows')
    ]

unfoldable pub update_user :
    (ℕ → Users → Users) → ℕ → Text → UserPatch → Users → Result User × Users
update_user meanwhile now id patch rows =
    retry_on_version_conflict update_max_attempts id (λ n. attempt id patch now (meanwhile n)) rows
