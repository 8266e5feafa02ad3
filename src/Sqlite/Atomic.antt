-- ===== src/Sqlite/Atomic.antt =====
-- crates/adapters/src/sqlite/mod.rs: an update that succeeds is one step on the row as it then is.
use oidc_exchange.Base.{
  ℕ, zero, suc, ◌≡◌, refl, sym, subst, ap, ◌∙◌, none, some, Text, ◌==◌, ==_iff, get, put,
  Option-cases, Bool-cases, inl, inr, arith,
}
use oidc_exchange.Error.{ok, Result-cases}
use oidc_exchange.Domain.User.{User, UserPatch}
use oidc_exchange.Sqlite.{
  Users, patched, written, write_at, attempt, retry_on_version_conflict, update_user,
  update_max_attempts,
}

-- Other writers change the version of a row with the row.
abbrev pub Versioned : Text → (Users → Users) → Type 0
Versioned id f =
    (rows : Users) (r r' : User)
    → get id rows ≡ some r
    → get id (f rows) ≡ some r'
    → r'.version ≡ r.version
    → r' ≡ r

-- The table before the write, and the row there, which the patch is applied to.
pub record AppliedAt (id : Text) (patch : UserPatch) (now : ℕ) (user : User) (rows : Users)
    : Type 0 where
  pub before : Users
  pub row : User
  pub found : get id before ≡ some row
  pub answer : user ≡ patched patch now row
  pub after : rows ≡ put id (patched patch now row) before

written-patched :
    (patch : UserPatch) (now : ℕ) (row : User)
    → written (patched patch now row) row ≡ patched patch now row
unfolding written patched
written-patched patch now row = refl

attempt-AppliedAt :
    (id : Text) (patch : UserPatch) (now : ℕ) (f : Users → Users) (rows rows' : Users) (user : User)
    → Versioned id f
    → attempt id patch now f rows ≡ (ok (some user), rows')
    → AppliedAt id patch now user rows'
unfolding attempt write_at
attempt-AppliedAt id patch now f rows rows' user v e = elim (Option-cases (get id rows)) [
  | inl n ↦ absurd (ground (arith, e, n))
  | inr (read, n) ↦ elim (Option-cases (get id (f rows))) [
    | inl g ↦ absurd (ground (arith, e, n, g))
    | inr (row, g) ↦ elim (Bool-cases (row.version == read.version)) [
      | inl same ↦
          (let unchanged : row ≡ read =
              v rows read row n g ((==_iff row.version read.version).0 same) in
            let answer : user ≡ patched patch now read = ground (arith, e, n, g, same) in
            let after : rows' ≡ put id (written (patched patch now read) row) (f rows) =
              ground (arith, e, n, g, same) in
            record {
              before = f rows;
              row = row;
              found = g;
              answer = answer ∙ ap (patched patch now) (sym unchanged);
              after =
                  after
                  ∙ ap (λ (r : User). put id (written (patched patch now r) row) (f rows))
                      (sym unchanged)
                  ∙ ap (λ (r : User). put id r (f rows)) (written-patched patch now row);
            })
      | inr other ↦ absurd (ground (arith, e, n, g, other))
    ]
  ]
]

retry-AppliedAt :
    (n : ℕ) (id : Text) (patch : UserPatch) (now : ℕ) (meanwhile : ℕ → Users → Users)
    (rows rows' : Users) (user : User)
    → ((k : ℕ) → Versioned id (meanwhile k))
    → retry_on_version_conflict n id (λ k. attempt id patch now (meanwhile k)) rows
      ≡ (ok user, rows')
    → AppliedAt id patch now user rows'
unfolding retry_on_version_conflict
retry-AppliedAt zero id patch now meanwhile rows rows' user v e = absurd (ground (arith, e))
retry-AppliedAt (suc n) id patch now meanwhile rows rows' user v e =
    let try = attempt id patch now (meanwhile n) rows in
    elim (Result-cases try.0) [
      | inl (some u, h) ↦
          (let same : u ≡ user = ground (arith, e, h) in
            let left : try.1 ≡ rows' = ground (arith, e, h) in
            subst (λ (x : Users). AppliedAt id patch now user x) left
              (subst (λ (x : User). AppliedAt id patch now x try.1) same
                (attempt-AppliedAt id patch now (meanwhile n) rows try.1 u (v n)
                  (ground (arith, h)))))
      | inl (none, h) ↦
          retry-AppliedAt n id patch now meanwhile try.1 rows' user v (ground (arith, e, h))
      | inr (inl (x, h)) ↦ absurd (ground (arith, e, h))
      | inr (inr h) ↦ absurd (ground (arith, e, h))
    ]

-- An update that reports success is one atomic step: there is a table at which the row stood as the
-- update found it, the patch was applied to that very row, and the table after it is that table with
-- the patched row, whatever other writers did between its statements and however often it was retried.
-- Other writers change the version of a row whenever they change the row.
pub update_user-AppliedAt :
    (meanwhile : ℕ → Users → Users) (now : ℕ) (id : Text) (patch : UserPatch) (rows rows' : Users)
    (user : User)
    → ((k : ℕ) → Versioned id (meanwhile k))
    → update_user meanwhile now id patch rows ≡ (ok user, rows')
    → AppliedAt id patch now user rows'
unfolding update_user
update_user-AppliedAt meanwhile now id patch rows rows' user v e =
    retry-AppliedAt update_max_attempts id patch now meanwhile rows rows' user v e
