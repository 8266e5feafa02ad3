-- ===== src/Sqlite/Repository/Resurrected.antt =====
-- crates/core/src/service/user_admin.rs over crates/adapters/src/sqlite/mod.rs: an update that passed
-- its check, and a deletion before its write.
use oidc_exchange.Base.{
  ℕ, ◌≡◌, refl, sym, subst, ap, ◌∙◌, Option, some, Text, if◌then◌else◌, get, put, get-put_self,
  arith,
}
use oidc_exchange.Error.{Result, ok}
use oidc_exchange.Domain.User.{
  User, UserPatch, UserStatus, UserPage, active, suspended, deleted, can_transition_to,
}
use oidc_exchange.Service.{SessionRepository, AppService, World, Action, pure, and_then, on_store}
use oidc_exchange.Service.Flow.{and_then-ok}
use oidc_exchange.Service.UserAdmin.{
  UserSync, existing_user, ensure_transition, ensure_patch_claims, apply_patch,
  apply_validated_patch, status_only, entered_suspended_or_deleted,
}
use oidc_exchange.Service.UserAdmin.Lifecycle.{pure-Keeps, on_store-Keeps, if-Keeps, and_then-Keeps}
use oidc_exchange.Sqlite.{Users, patched, update_user}
use oidc_exchange.Sqlite.Repository.{
  sqlite_users, beside_users, sync_beside, status_in, update_user-found, get_user_by_id,
}

module _ {R : Type 0} (sessions : SessionRepository R) (sync : UserSync R) (fresh : Users → Text)
    (now : ℕ) (list : Option Text → ℕ → Users → Result UserPage × Users) (app : AppService)
    (debug : Text → Text) (digest : Text → Text) where
  abbrev pub exists : Text → Action (Users × R) User
  exists id =
      existing_user (beside_users sessions) (sqlite_users fresh now list) (sync_beside sync) app
        debug digest id

  abbrev pub transition : UserStatus → Option UserStatus → Result (Unit {0})
  transition c t =
      ensure_transition (beside_users sessions) (sqlite_users fresh now list) (sync_beside sync) app
        debug digest c t

  abbrev pub applied : Text → UserPatch → UserStatus → Action (Users × R) User
  applied id p c =
      apply_patch (beside_users sessions) (sqlite_users fresh now list) (sync_beside sync) app debug
        digest id p c

  abbrev pub validated : Text → UserPatch → Action (Users × R) User
  validated id p =
      apply_validated_patch (beside_users sessions) (sqlite_users fresh now list) (sync_beside sync)
        app debug digest id p

  -- The table after the write of a patch, whatever the revocation of the sessions does.
  applied-rows :
      (id : Text) (p : UserPatch) (c : UserStatus) (w : World (Users × R)) (u : User)
      → get id w.store.0 ≡ some u
      → (applied id p c w).1.store.0 ≡ put id (patched p now u) w.store.0
  unfolding apply_patch on_store
  applied-rows id p c w u n =
      let P = λ (s : Users × R). s.0 ≡ put id (patched p now u) w.store.0 in
      let run = update_user-found now id p w.store.0 u n in
      let after : World (Users × R) = record w {
        store = ((update_user (λ _ rows. rows) now id p w.store.0).1, w.store.1);
      } in
      let k = λ (user : User).
        if entered_suspended_or_deleted c p.status
        then and_then (on_store ((beside_users sessions).revoke_all_user_sessions id))
            (λ _. pure (ok user))
        else pure (ok user) in
      subst (λ (r : Result User × World (Users × R)). P r.1.store)
        (sym (
          and_then-ok (on_store ((sqlite_users fresh now list).update_user id p)) k w
            (patched p now u) (ap (λ x. x.0) run)))
        (if-Keeps P (entered_suspended_or_deleted c p.status) _ _
          (and_then-Keeps P _ _
            (on_store-Keeps P ((beside_users sessions).revoke_all_user_sessions id) (λ s h. h))
            (λ _. pure-Keeps P (ok (patched p now u))))
          (pure-Keeps P (ok (patched p now u))) after (ap (λ x. x.1) run))

  exists-found :
      (id : Text) (w : World (Users × R)) (u : User)
      → get id w.store.0 ≡ some u
      → exists id w ≡ (ok u, w)
  unfolding existing_user and_then on_store pure get_user_by_id
  exists-found id w u n = ground (arith, n)

  passes : transition suspended (some active) ≡ ok tt
  unfolding ensure_transition can_transition_to
  passes = refl

  -- A flow that passed its checks goes on with the patch.
  validated-run :
      (id : Text) (t : UserStatus) (w : World (Users × R)) (u : User)
      → get id w.store.0 ≡ some u
      → transition u.status (some t) ≡ ok tt
      → validated id (status_only t) w ≡ applied id (status_only t) u.status w
  unfolding apply_validated_patch ensure_patch_claims status_only pure
  validated-run id t w u n passed =
      and_then-ok (pure (ok tt)) _ w tt refl
      ∙ and_then-ok (exists id) _ w u (ap (λ x. x.0) (exists-found id w u n))
      ∙ and_then-ok (pure (transition u.status (some t))) (λ _. applied id (status_only t) u.status)
          (exists id w).1 tt passed
      ∙ ap (λ x. applied id (status_only t) u.status x.1) (exists-found id w u n)

  may_delete : (c : UserStatus) → c ≡ suspended → transition c (some deleted) ≡ ok tt
  unfolding ensure_transition can_transition_to
  may_delete c e = rw e refl

  status_after :
      (id : Text) (t c : UserStatus) (w : World (Users × R)) (u : User)
      → get id w.store.0 ≡ some u
      → status_in id (applied id (status_only t) c w).1.store.0 ≡ some t
  unfolding patched status_only
  status_after id t c w u n =
      ap (status_in id) (applied-rows id (status_only t) c w u n)
      ∙ ground (arith, get-put_self id (patched (status_only t) now u) w.store.0)

  -- The lifecycle is checked against a row that the write does not look at again. A reactivation of a
  -- suspended user passes its checks; a deletion of the same user comes in between and is written; the
  -- write of the reactivation then brings the deleted user back as active.
  pub apply_patch-resurrects :
      (id : Text) (w : World (Users × R)) (u : User)
      → get id w.store.0 ≡ some u
      → u.status ≡ suspended
      → let w' = (validated id (status_only deleted) w).1 in
        ((exists id w).0 ≡ ok u)
        × (transition u.status (some active) ≡ ok tt)
        × (status_in id w'.store.0 ≡ some deleted)
        × (status_in id (applied id (status_only active) u.status w').1.store.0 ≡ some active)
  apply_patch-resurrects id w u n s =
      let run = validated-run id deleted w u n (may_delete u.status s) in
      let rows = ap (λ x. x.1.store.0) run ∙ applied-rows id (status_only deleted) u.status w u n in
      (
        ap (λ x. x.0) (exists-found id w u n),
        subst (λ (x : UserStatus). transition x (some active) ≡ ok tt) (sym s) passes,
        ap (λ x. status_in id x.1.store.0) run ∙ status_after id deleted u.status w u n,
        status_after id active u.status (validated id (status_only deleted) w).1
            (patched (status_only deleted) now u)
            (ap (λ (x : Users). get id x) rows
              ∙ get-put_self id (patched (status_only deleted) now u) w.store.0),
      )
