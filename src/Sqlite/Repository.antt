-- ===== src/Sqlite/Repository.antt =====
-- crates/adapters/src/sqlite/mod.rs: the user repository on the table, beside any session repository,
-- and the laws that the administration of users relies on.
pub mod Resurrected
use oidc_exchange.Base.{
  ℕ, zero, suc, ◌+◌, ◌≡◌, refl, sym, subst, ap, ◌∙◌, Bool, true, false, not, ◌&&◌, Option, none,
  some, List, [], ◌∷◌, Text, codes, text_eq, text_eq_iff, ◌==◌, ==_iff, if◌then◌else◌, Database,
  get, put, get-put, get-put_ne, get-put_self, contains_key, Option-cases, Bool-cases, inl, inr,
  arith, ◌⊎◌,
}
use oidc_exchange.Error.{Result, ok, err, panicked, Result-cases, conflict}
use oidc_exchange.Domain.Session.{Session}
use oidc_exchange.Domain.User.{
  User, UserPatch, UserStatus, UserPage, NewUser, active, suspended, deleted, status_eq,
}
use oidc_exchange.Service.{SessionRepository}
use oidc_exchange.Service.UserAdmin.{UserRepository, UserSync, is_deleted}
use oidc_exchange.Service.UserAdmin.Lifecycle.{LawfulUsers}
use oidc_exchange.Sqlite.{
  Users, or_old, or_kept, patched, written, write_at, won, attempt, retry_on_version_conflict,
  update_user, update_max_attempts,
}

unfoldable pub get_user_by_id : Text → Users → Result (Option User) × Users
get_user_by_id id rows = (ok (get id rows), rows)

-- The row that is not deleted, of which the index on `(provider, external_id)` allows one.
unfoldable pub find_external : Text → Text → Users → Option User
find_external external_id provider [] = none
find_external external_id provider ((_, u) ∷ rest) =
    let later = find_external external_id provider rest in
    if text_eq u.external_id external_id && text_eq u.provider provider && not (is_deleted u.status)
    then some u
    else later

unfoldable pub get_user_by_external_id : Text → Text → Users → Result (Option User) × Users
get_user_by_external_id external_id provider rows =
    (ok (find_external external_id provider rows), rows)

abbrev pub new_row : Text → ℕ → NewUser → User
new_row id now user = record {
  id = id;
  external_id = user.external_id;
  provider = user.provider;
  email = user.email;
  display_name = user.display_name;
  metadata = [];
  claims = [];
  status = active;
  version = 1;
  created_at = now;
  updated_at = now;
}

-- `INSERT`: the id and the pair `(provider, external_id)` of the rows that are not deleted are unique.
unfoldable pub violates_unique : Text → NewUser → Users → Bool
violates_unique id user rows = elim (get id rows) [
  | some _ ↦ true
  | none ↦ elim (find_external user.external_id user.provider rows) [ none ↦ false | some _ ↦ true ]
]

-- `id` is the fresh `usr_` id. The text of the error names the pair.
unfoldable pub create_user : (Users → Text) → ℕ → NewUser → Users → Result User × Users
create_user fresh now user rows =
    let id = fresh rows in
    if violates_unique id user rows
    then (err (conflict (codes "user already exists for external_id and provider")), rows)
    else (ok (new_row id now user), put id (new_row id now user) rows)

unfoldable pub with_status : UserStatus → Users → ℕ
with_status t [] = 0
with_status t ((_, u) ∷ rest) =
    let others = with_status t rest in if status_eq u.status t then others + 1 else others

-- A status without rows has no group.
abbrev group : Text → ℕ → List (Text × ℕ) → List (Text × ℕ)
group name zero rest = rest
group name (suc n) rest = (name, suc n) ∷ rest

unfoldable pub count_by_status : Users → Result (List (Text × ℕ)) × Users
count_by_status rows = (
  ok (
      group (codes "active") (with_status active rows) (
        group (codes "suspended") (with_status suspended rows)
          (group (codes "deleted") (with_status deleted rows) []))),
  rows,
)

module _ {R : Type 0} where
  -- The table stands beside the rest of the store.
  abbrev pub on_users :
      {A : Type 0} → (Users → Result A × Users) → Users × R → Result A × (Users × R)
  on_users f s = let (a, rows) = f s.0 in (a, (rows, s.1))

  abbrev pub on_rest : {A : Type 0} → (R → Result A × R) → Users × R → Result A × (Users × R)
  on_rest f s = let (a, rest) = f s.1 in (a, (s.0, rest))

  -- No other writer comes between the statements of a call; the listing is a parameter.
  abbrev pub sqlite_users :
      (Users → Text)
      → ℕ
      → (Option Text → ℕ → Users → Result UserPage × Users)
      → UserRepository (Users × R)
  sqlite_users fresh now list = record {
    get_user_by_id = λ id. on_users (get_user_by_id id);
    create_user = λ u. on_users (create_user fresh now u);
    update_user = λ id p. on_users (update_user (λ _ rows. rows) now id p);
    count_by_status = on_users count_by_status;
    list_users = λ cursor n. on_users (list cursor n);
  }

  abbrev pub beside_users : SessionRepository R → SessionRepository (Users × R)
  beside_users repo = record {
    get_session_by_refresh_token = λ h. on_rest (repo.get_session_by_refresh_token h);
    resolve_refresh_token = λ h now. on_rest (repo.resolve_refresh_token h now);
    rotate_refresh_token = λ h s now. on_rest (repo.rotate_refresh_token h s now);
    revoke_session = λ h. on_rest (repo.revoke_session h);
    revoke_family = λ f. on_rest (repo.revoke_family f);
    store_refresh_token = λ s. on_rest (repo.store_refresh_token s);
    revoke_all_user_sessions = λ id. on_rest (repo.revoke_all_user_sessions id);
    list_live_sessions = λ id now n. on_rest (repo.list_live_sessions id now n);
    count_active_sessions = λ now. on_rest (repo.count_active_sessions now);
    put_single_use = λ k e now. on_rest (repo.put_single_use k e now);
    take_single_use = λ k now. on_rest (repo.take_single_use k now);
  }

  abbrev pub sync_beside : UserSync R → UserSync (Users × R)
  sync_beside sync = record {
    notify_user_created = λ u. on_rest (sync.notify_user_created u);
    notify_user_updated = λ u c. on_rest (sync.notify_user_updated u c);
    notify_user_deleted = λ id. on_rest (sync.notify_user_deleted id);
  }

abbrev pub status_in : Text → Users → Option UserStatus
status_in id rows = elim (get id rows) [ none ↦ none | some u ↦ some u.status ]

abbrev quiet : Users → Users
quiet rows = rows

written-patched :
    (p : UserPatch) (now : ℕ) (u : User) → written (patched p now u) u ≡ patched p now u
unfolding written patched
written-patched p now u = refl

attempt-found :
    (id : Text) (p : UserPatch) (now : ℕ) (rows : Users) (u : User)
    → get id rows ≡ some u
    → attempt id p now quiet rows ≡ (ok (some (patched p now u)), put id (patched p now u) rows)
unfolding attempt write_at
attempt-found id p now rows u n =
    ground (arith, n, (==_iff u.version u.version).1 refl)
    ∙ ap (λ (r : User). (ok (some (patched p now u)), put id r rows)) (written-patched p now u)

attempt-absent :
    (id : Text) (p : UserPatch) (now : ℕ) (rows : Users)
    → get id rows ≡ none
    → (attempt id p now quiet rows).1 ≡ rows
unfolding attempt
attempt-absent id p now rows n = ground (arith, n)

attempt-absent_fails :
    (id : Text) (p : UserPatch) (now : ℕ) (rows : Users) (o : Option User)
    → get id rows ≡ none
    → (attempt id p now quiet rows).0 ≡ ok o
    → ⊥
unfolding attempt
attempt-absent_fails id p now rows o n e = ground (arith, n, e)

-- Without other writers the first attempt decides.
pub update_user-found :
    (now : ℕ) (id : Text) (p : UserPatch) (rows : Users) (u : User)
    → get id rows ≡ some u
    → update_user (λ _. quiet) now id p rows ≡ (ok (patched p now u), put id (patched p now u) rows)
unfolding update_user retry_on_version_conflict
update_user-found now id p rows u n = ground (arith, attempt-found id p now rows u n)

update_user-absent :
    (now : ℕ) (id : Text) (p : UserPatch) (rows : Users)
    → get id rows ≡ none
    → (update_user (λ _. quiet) now id p rows).1 ≡ rows
unfolding update_user retry_on_version_conflict
update_user-absent now id p rows n =
    let try = attempt id p now quiet rows in
    elim (Result-cases try.0) [
      | inl (o, h) ↦ absurd (attempt-absent_fails id p now rows o n h)
      | inr (inl (x, h)) ↦ ground (arith, h, attempt-absent id p now rows n)
      | inr (inr h) ↦ ground (arith, h, attempt-absent id p now rows n)
    ]

status_in-put :
    (id j : Text) (u : User) (rows : Users)
    → status_in j (put id u rows) ≡ (if text_eq j id then some u.status else status_in j rows)
status_in-put id j u rows = ground (arith, get-put id j u rows)

patched-status :
    (p : UserPatch) (now : ℕ) (u : User) → (patched p now u).status ≡ or_old p.status u.status
unfolding patched
patched-status p now u = refl

update_user-status :
    (now : ℕ) (id j : Text) (p : UserPatch) (rows : Users)
    → (status_in j (update_user (λ _. quiet) now id p rows).1 ≡ status_in j rows)
      ⊎ ((t : UserStatus) × (j ≡ id)
          × (p.status ≡ some t)
          × (status_in j (update_user (λ _. quiet) now id p rows).1 ≡ some t))
update_user-status now id j p rows = elim (Option-cases (get id rows)) [
  | inl n ↦ inl (ap (status_in j) (update_user-absent now id p rows n))
  | inr (u, n) ↦
      (let run =
          ap (λ (x : Result User × Users). status_in j x.1) (update_user-found now id p rows u n)
          ∙ status_in-put id j (patched p now u) rows in
        elim (Bool-cases (text_eq j id)) [
          | inr e ↦ inl (run ∙ ground (arith, e))
          | inl e ↦ elim (Option-cases p.status) [
            | inl q ↦
                inl (run ∙ ground (arith, e, n, q, patched-status p now u, (text_eq_iff j id).0 e))
            | inr (t, q) ↦
                inr
                  (t, (text_eq_iff j id).0 e, q, run ∙ ground (arith, e, q, patched-status p now u))
          ]
        ])
]

create_user-violates :
    (fresh : Users → Text) (now : ℕ) (u : NewUser) (rows : Users)
    → violates_unique (fresh rows) u rows ≡ true
    → (create_user fresh now u rows).1 ≡ rows
unfolding create_user
create_user-violates fresh now u rows e = ground (arith, e)

create_user-inserts :
    (fresh : Users → Text) (now : ℕ) (u : NewUser) (rows : Users)
    → violates_unique (fresh rows) u rows ≡ false
    → (create_user fresh now u rows).1 ≡ put (fresh rows) (new_row (fresh rows) now u) rows
unfolding create_user
create_user-inserts fresh now u rows e = ground (arith, e)

violates_unique-fresh :
    (id : Text) (u : NewUser) (rows : Users)
    → violates_unique id u rows ≡ false
    → get id rows ≡ none
unfolding violates_unique
violates_unique-fresh id u rows e = ground (arith, e, Option-cases (get id rows))

status_in-create :
    (fresh : Users → Text) (now : ℕ) (u : NewUser) (j : Text) (t : UserStatus) (rows : Users)
    → status_in j rows ≡ some t
    → status_in j (create_user fresh now u rows).1 ≡ some t
status_in-create fresh now u j t rows h = elim (Bool-cases (violates_unique (fresh rows) u rows)) [
  | inl e ↦ ap (status_in j) (create_user-violates fresh now u rows e) ∙ h
  | inr e ↦
      ap (status_in j) (create_user-inserts fresh now u rows e)
      ∙ status_in-put (fresh rows) j (new_row (fresh rows) now u) rows
      ∙ ground (arith, h, violates_unique-fresh (fresh rows) u rows e, text_eq_iff j (fresh rows))
]

module _ {R : Type 0} (sessions : SessionRepository R) (sync : UserSync R) (fresh : Users → Text)
    (now : ℕ) (list : Option Text → ℕ → Users → Result UserPage × Users) where
  -- With no other writer between statements, the user repository on SQLite keeps the laws that the
  -- administration of users relies on, beside any session repository and any notifications.
  pub sqlite_users-Lawful :
      LawfulUsers
        (beside_users sessions)
        (sqlite_users fresh now list)
        (sync_beside sync)
        (λ (id : Text) (s : Users × R). status_in id s.0)
  unfolding get_user_by_id
  sqlite_users-Lawful = record {
    reads = λ id u s e. ground (arith, e);
    read_keeps = λ id j s. refl;
    update_keeps = λ id j p s. update_user-status now id j p s.0;
    create_keeps = λ u j t s h. status_in-create fresh now u j t s.0 h;
    list_keeps = λ id j at n s. refl;
    revoke_family_keeps = λ f j s. refl;
    revoke_all_keeps = λ id j s. refl;
    created_keeps = λ u j s. refl;
    updated_keeps = λ u c j s. refl;
    deleted_keeps = λ id j s. refl;
  }
