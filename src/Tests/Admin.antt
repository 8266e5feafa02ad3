-- ===== src/Tests/Admin.antt =====
-- The administration of users over SQLite users and LMDB sessions at concrete calls.
use oidc_exchange.Base.{
  ℕ, ◌≡◌, refl, true, Option, none, some, List, [], ◌∷◌, Text, codes, text_eq, get, put,
  get-put_self, ◌+◌, ◌==◌, if◌then◌else◌, Bool-cases, inl, inr, arith,
}
use oidc_exchange.Error.{Result, ok}
use oidc_exchange.Domain.User.{User, UserStatus, UserPage, active, suspended, deleted}
use oidc_exchange.Domain.Operator.{OperatorPrincipal, unattributed}
use oidc_exchange.Lmdb.{Lmdb}
use oidc_exchange.Lmdb.Reach.{no_rows}
use oidc_exchange.Service.{World}
use oidc_exchange.Service.Lmdb.{lmdb_repository}
use oidc_exchange.Service.UserAdmin.{UserSync, status_only}
use oidc_exchange.Service.UserAdmin.Calls.{
  Mutation, update, delete, clear_claims, perform, performed,
}
use oidc_exchange.Service.UserAdmin.Attributed.{Signed, perform-Signed}
use oidc_exchange.Service.UserAdmin.Lifecycle.{performed-deleted}
use oidc_exchange.Sqlite.{
  Users, patched, update_user, attempt, retry_on_version_conflict, write_at, written,
}
use oidc_exchange.Sqlite.Atomic.{AppliedAt, Versioned, update_user-AppliedAt}
use oidc_exchange.Sqlite.Repository.{
  sqlite_users, beside_users, sync_beside, status_in, sqlite_users-Lawful,
}
use oidc_exchange.Sqlite.Repository.Resurrected.{
  exists, transition, validated, applied, apply_patch-resurrects,
}
use oidc_exchange.Tests.Rows.{with_rows}
use oidc_exchange.Tests.Redemption.{app}
use oidc_exchange.Tests.Tokens.{user_with}

abbrev id : Text
id = codes "usr_1"

abbrev row_in : UserStatus → User
row_in status = record (user_with []) { status = status }

abbrev table : UserStatus → Users
table status = (id, row_in status) ∷ []

abbrev quiet_sync : UserSync Lmdb
quiet_sync = record {
  notify_user_created = λ _ r. (ok tt, r);
  notify_user_updated = λ _ _ r. (ok tt, r);
  notify_user_deleted = λ _ r. (ok tt, r);
}

abbrev fresh : Users → Text
fresh _ = codes "usr_9"

abbrev no_page : Option Text → ℕ → Users → Result UserPage × Users
no_page _ _ rows = (ok (record { users = []; next_cursor = none }), rows)

abbrev quoted : Text → Text
quoted t = t

abbrev before : UserStatus → World (Users × Lmdb)
before status = record { store = (table status, with_rows no_rows); events = [] }

perform-Signed_example :
    Signed unattributed []
      (perform
        (beside_users lmdb_repository)
        (sqlite_users fresh 7 no_page)
        (sync_beside quiet_sync)
        (app true)
        quoted
        quoted
        unattributed
        (delete id)
        (before suspended)).1.events
perform-Signed_example =
    perform-Signed (beside_users lmdb_repository) (sqlite_users fresh 7 no_page)
      (sync_beside quiet_sync) (app true) quoted quoted unattributed (delete id) (before suspended)

abbrev calls : List (OperatorPrincipal × Mutation)
calls = (unattributed, update id (status_only active)) ∷ (unattributed, clear_claims id) ∷ []

table_status : (s : UserStatus) → status_in id (table s) ≡ some s
unfolding get text_eq
table_status s = refl

performed-deleted_example :
    status_in id
      (performed
        (beside_users lmdb_repository)
        (sqlite_users fresh 7 no_page)
        (sync_beside quiet_sync)
        (app true)
        quoted
        quoted
        calls
        (before deleted)).store.0
    ≡ some deleted
performed-deleted_example =
    performed-deleted (beside_users lmdb_repository) (sqlite_users fresh 7 no_page)
      (sync_beside quiet_sync) (app true) quoted quoted
      (λ (j : Text) (s : Users × Lmdb). status_in j s.0)
      (sqlite_users-Lawful lmdb_repository quiet_sync fresh 7 no_page) id calls (before deleted)
      (table_status deleted)

table_row : (s : UserStatus) → get id (table s) ≡ some (row_in s)
unfolding get text_eq
table_row s = refl

apply_patch-resurrects_example :
    let w' =
      (validated lmdb_repository quiet_sync fresh 7 no_page
        (app true)
        quoted
        quoted
        id
        (status_only deleted)
        (before suspended)).1 in
    ((exists lmdb_repository quiet_sync fresh 7 no_page
        (app true)
        quoted
        quoted
        id
        (before suspended)).0
      ≡ ok (row_in suspended))
    × (transition lmdb_repository quiet_sync fresh 7 no_page
          (app true)
          quoted
          quoted
          suspended
          (some active)
        ≡ ok tt)
    × (status_in id w'.store.0 ≡ some deleted)
    × (status_in id
          (applied lmdb_repository quiet_sync fresh 7 no_page
            (app true)
            quoted
            quoted
            id
            (status_only active)
            suspended
            w').1.store.0
        ≡ some active)
apply_patch-resurrects_example =
    apply_patch-resurrects lmdb_repository quiet_sync fresh 7 no_page (app true) quoted quoted id
      (before suspended) (row_in suspended) (table_row suspended) refl

-- Another writer comes between the statements of the first attempt, and of no other.
abbrev renamed : User → User
renamed u = record u { email = some (codes "a@b.test"); version = u.version + 1 }

bump : Users → Users
bump rows = elim (get id rows) [ none ↦ rows | some r ↦ put id (renamed r) rows ]

abbrev interfering : ℕ → Users → Users
interfering k = if k == 4 then bump else λ rows. rows

bump-Versioned : Versioned id bump
unfolding bump
bump-Versioned rows r r' g h e = absurd (ground (arith, g, h, e, get-put_self id (renamed r) rows))

interfering-Versioned : (k : ℕ) → Versioned id (interfering k)
interfering-Versioned k = elim (Bool-cases (k == 4)) [
  | inl e ↦ rw e bump-Versioned
  | inr e ↦ rw e (λ rows r r' g h _. ground (arith, g, h))
]

abbrev outcome : Result User × Users
outcome = update_user interfering 7 id (status_only suspended) (table active)

abbrev final : User
final = patched (status_only suspended) 7 (renamed (row_in active))

update_user-AppliedAt_example : AppliedAt id (status_only suspended) 7 final outcome.1
unfolding update_user retry_on_version_conflict attempt write_at get put text_eq bump patched
    written status_only
update_user-AppliedAt_example =
    update_user-AppliedAt interfering 7 id (status_only suspended) (table active) outcome.1 final
      interfering-Versioned refl
