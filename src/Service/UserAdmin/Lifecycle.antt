-- ===== src/Service/UserAdmin/Lifecycle.antt =====
-- crates/core/src/service/user_admin.rs: the lifecycle of a user under the mutations of operators.
use oidc_exchange.Base.{
  ℕ, ◌≡◌, refl, sym, subst, ap, ◌∙◌, Bool, true, false, Option, none, some, List, [], ◌∷◌, Text,
  ◌==◌, if◌then◌else◌, ◌⊎◌, inl, inr, arith,
}
use oidc_exchange.Error.{Error, Result, ok, err, panicked, Result-cases}
use oidc_exchange.Domain.User.{User, UserStatus, NewUser, UserPatch, deleted, can_transition_to}
use oidc_exchange.Domain.Operator.{OperatorPrincipal}
use oidc_exchange.Domain.Audit.{AuditEvent, AdminMutationKind, Value}
use oidc_exchange.Service.{
  SessionRepository, AppService, World, Action, pure, and_then, on_store,
  emit_mandatory_audit_event,
}
use oidc_exchange.Service.Flow.{and_then-ok, and_then-err, and_then-panicked, emit_mandatory-Quiet}
use oidc_exchange.Service.UserAdmin.{
  UserRepository, UserSync, notified, existing_user, load_live_user, emit_admin_mutation,
  apply_patch, apply_validated_patch, entered_suspended_or_deleted, find_family, ensure_transition,
  claims_only, admin_create_user, admin_update_user, admin_delete_user, admin_revoke_user_session,
  admin_revoke_user_sessions,
}
use oidc_exchange.Service.UserAdmin.Claims.{
  emit_claims_audit_event, write_claims, admin_set_claims, admin_merge_claims, admin_clear_claims,
}
use oidc_exchange.Service.UserAdmin.Calls.{
  Mutation, create, update, delete, revoke_one, revoke_all, set_claims, merge_claims, clear_claims,
  perform, performed,
}

-- What the service relies on of the user repository, by the status of the rows in the store: a read
-- answers by the row and changes none; a write changes at most the row it names, to the status of its
-- patch, where it has one; a new user takes no existing row. The session repository and the
-- notifications change no row.
pub record LawfulUsers {S : Type 0} (sessions : SessionRepository S) (users : UserRepository S)
    (sync : UserSync S) (status_of : Text → S → Option UserStatus) : Type 0 where
  pub reads :
      (id : Text) (u : User) (s : S)
      → (users.get_user_by_id id s).0 ≡ ok (some u)
      → status_of id s ≡ some u.status
  pub read_keeps : (id j : Text) (s : S) → status_of j (users.get_user_by_id id s).1 ≡ status_of j s
  pub update_keeps :
      (id j : Text) (p : UserPatch) (s : S)
      → (status_of j (users.update_user id p s).1 ≡ status_of j s)
        ⊎ ((t : UserStatus) × (j ≡ id)
            × (p.status ≡ some t)
            × (status_of j (users.update_user id p s).1 ≡ some t))
  pub create_keeps :
      (u : NewUser) (j : Text) (t : UserStatus) (s : S)
      → status_of j s ≡ some t
      → status_of j (users.create_user u s).1 ≡ some t
  pub list_keeps :
      (id j : Text) (now n : ℕ) (s : S)
      → status_of j (sessions.list_live_sessions id now n s).1 ≡ status_of j s
  pub revoke_family_keeps :
      (f j : Text) (s : S) → status_of j (sessions.revoke_family f s).1 ≡ status_of j s
  pub revoke_all_keeps :
      (id j : Text) (s : S) → status_of j (sessions.revoke_all_user_sessions id s).1 ≡ status_of j s
  pub created_keeps :
      (u : User) (j : Text) (s : S) → status_of j (sync.notify_user_created u s).1 ≡ status_of j s
  pub updated_keeps :
      (u : User) (c : List Text) (j : Text) (s : S)
      → status_of j (sync.notify_user_updated u c s).1 ≡ status_of j s
  pub deleted_keeps :
      (id j : Text) (s : S) → status_of j (sync.notify_user_deleted id s).1 ≡ status_of j s

-- A property of stores that a flow keeps.
module _ {S : Type 0} (P : S → Type 0) where
  abbrev pub Keeps : {A : Type 0} → Action S A → Type 0
  Keeps m = (w : World S) → P w.store → P (m w).1.store

  pub pure-Keeps : {A : Type 0} (a : Result A) → Keeps (pure a)
  unfolding pure
  pure-Keeps a w p = p

  pub on_store-Keeps :
      {A : Type 0} (f : S → Result A × S) → ((s : S) → P s → P (f s).1) → Keeps (on_store f)
  unfolding on_store
  on_store-Keeps f q w p = q w.store p

  pub if-Keeps :
      {A : Type 0} (b : Bool) (m n : Action S A) → Keeps m → Keeps n → Keeps (if b then m else n)
  if-Keeps true m n p q = p
  if-Keeps false m n p q = q

  -- The rest may count on what the answer says of the store.
  answered-Keeps :
      {A B : Type 0} (m : Action S A) (k : A → Action S B)
      → Keeps m
      → ((w : World S) (a : A) → P w.store → (m w).0 ≡ ok a → P (k a (m w).1).1.store)
      → Keeps (and_then m k)
  answered-Keeps m k q f w p =
      let Case = λ (r : Result _ × World S). P r.1.store in
      elim (Result-cases (m w).0) as (λ _. Case (and_then m k w)) [
        | inl (a, h) ↦ subst Case (sym (and_then-ok m k w a h)) (f w a p h)
        | inr (inl (x, h)) ↦ subst Case (sym (and_then-err m k w x h)) (q w p)
        | inr (inr h) ↦ subst Case (sym (and_then-panicked m k w h)) (q w p)
      ]

  pub and_then-Keeps :
      {A B : Type 0} (m : Action S A) (k : A → Action S B)
      → Keeps m
      → ((a : A) → Keeps (k a))
      → Keeps (and_then m k)
  and_then-Keeps m k q f = answered-Keeps m k q (λ w a p _. f a (m w).1 (q w p))

  emit-Keeps : (app : AppService) (e : AuditEvent) → Keeps (emit_mandatory_audit_event app e)
  emit-Keeps app e w p = subst P (sym (emit_mandatory-Quiet app e w)) p

module _ {S : Type 0} (sessions : SessionRepository S) (users : UserRepository S)
    (sync : UserSync S) (app : AppService) (debug : Text → Text) (digest : Text → Text)
    (status_of : Text → S → Option UserStatus) (laws : LawfulUsers sessions users sync status_of)
    (j : Text) where
  abbrev Dead : S → Type 0
  Dead s = status_of j s ≡ some deleted

  abbrev K : {A : Type 0} → Action S A → Type 0
  K m = Keeps Dead m

  update_user-Keeps :
      (id : Text) (p : UserPatch)
      → (j ≡ id → p.status ≡ none)
      → K (on_store (users.update_user id p))
  update_user-Keeps id p h = on_store-Keeps Dead _ (λ s d. elim (laws.update_keeps id j p s) [
    | inl e ↦ e ∙ d
    | inr (t, same, e, _) ↦ absurd (ground (arith, e, h same))
  ])

  existing-reads :
      (id : Text) (w : World S) (u : User)
      → (existing_user sessions users sync app debug digest id w).0 ≡ ok u
      → status_of id w.store ≡ some u.status
  unfolding existing_user and_then on_store pure
  existing-reads id w u e = elim (Result-cases (users.get_user_by_id id w.store).0) [
    | inl (none, h) ↦ absurd (ground (arith, e, h))
    | inl (some v, h) ↦
        (let same : v ≡ u = ground (arith, e, h) in
          laws.reads id v w.store h ∙ ap (λ (x : User). some x.status) same)
    | inr (inl (x, h)) ↦ absurd (ground (arith, e, h))
    | inr (inr h) ↦ absurd (ground (arith, e, h))
  ]

  existing-Keeps : (id : Text) → K (existing_user sessions users sync app debug digest id)
  unfolding existing_user
  existing-Keeps id =
      and_then-Keeps Dead _ _ (on_store-Keeps Dead _ (λ s d. laws.read_keeps id j s ∙ d))
        (λ found. pure-Keeps Dead _)

  ensure_deleted :
      (target : Option UserStatus)
      → ensure_transition sessions users sync app debug digest deleted target ≡ ok tt
      → target ≡ none
  unfolding ensure_transition can_transition_to
  ensure_deleted none e = refl
  ensure_deleted (some t) e = cc

  -- A patch with a status does not pass for the row.
  no_status :
      (id : Text) (w : World S) (u : User) (p : UserPatch)
      → Dead w.store
      → (existing_user sessions users sync app debug digest id w).0 ≡ ok u
      → ensure_transition sessions users sync app debug digest u.status p.status ≡ ok tt
      → j ≡ id
      → p.status ≡ none
  no_status id w u p d e passed same =
      let found : status_of j w.store ≡ some u.status =
        ap (λ (x : Text). status_of x w.store) same ∙ existing-reads id w u e in
      let is_dead : u.status ≡ deleted = ground (arith, found, d) in
      ensure_deleted p.status (
        subst
          (λ (x : UserStatus).
            ensure_transition sessions users sync app debug digest x p.status ≡ ok tt)
          is_dead passed)

  gate-Keeps :
      {A : Type 0} (r : Result (Unit {0})) (m : Action S A)
      → (r ≡ ok tt → K m)
      → K (and_then (pure r) (λ _. m))
  unfolding and_then pure
  gate-Keeps (ok _) m q w d = q refl w d
  gate-Keeps (err x) m q w d = d
  gate-Keeps panicked m q w d = d

  apply_patch-Keeps :
      (id : Text) (p : UserPatch) (current : UserStatus)
      → (j ≡ id → p.status ≡ none)
      → K (apply_patch sessions users sync app debug digest id p current)
  unfolding apply_patch
  apply_patch-Keeps id p current h = and_then-Keeps Dead _ _ (update_user-Keeps id p h) (λ user.
      if-Keeps Dead (entered_suspended_or_deleted current p.status) _ _
        (and_then-Keeps Dead _ _ (on_store-Keeps Dead _ (λ s x. laws.revoke_all_keeps id j s ∙ x))
          (λ _. pure-Keeps Dead (ok user)))
        (pure-Keeps Dead (ok user)))

  apply-Keeps :
      (id : Text) (p : UserPatch)
      → K (apply_validated_patch sessions users sync app debug digest id p)
  unfolding apply_validated_patch
  apply-Keeps id p = and_then-Keeps Dead _ _ (pure-Keeps Dead _) (λ _.
      answered-Keeps Dead _ _ (existing-Keeps id) (λ w u d e.
        gate-Keeps (ensure_transition sessions users sync app debug digest u.status p.status)
          (apply_patch sessions users sync app debug digest id p u.status)
          (λ passed. apply_patch-Keeps id p u.status (no_status id w u p d e passed))
          (existing_user sessions users sync app debug digest id w).1 (existing-Keeps id w d)))

  emit_admin-Keeps :
      (o : OperatorPrincipal) (kind : AdminMutationKind) (user : User)
      (detail : List (Text × Value))
      → K (emit_admin_mutation sessions users sync app debug digest o kind user detail)
  unfolding emit_admin_mutation
  emit_admin-Keeps o kind user detail =
      and_then-Keeps Dead _ _ (pure-Keeps Dead _) (λ e. emit-Keeps Dead app _)

  notified-Keeps :
      (f : S → Result (Unit {0}) × S)
      → ((s : S) → Dead s → Dead (f s).1)
      → K (notified sessions users sync app debug digest f)
  unfolding notified on_store
  notified-Keeps f q w d = elim (Result-cases (f w.store).0) [
    | inl (_, h) ↦ ground (arith, h, q w.store d)
    | inr (inl (x, h)) ↦ ground (arith, h, q w.store d)
    | inr (inr h) ↦ ground (arith, h, q w.store d)
  ]

  load-Keeps : (id : Text) → K (load_live_user sessions users sync app debug digest id)
  unfolding load_live_user
  load-Keeps id = and_then-Keeps Dead _ _ (existing-Keeps id) (λ u. pure-Keeps Dead _)

  found-Keeps :
      (found : Option Text) (k : Text → Action S (Unit {0})) (x : Error)
      → ((f : Text) → K (k f))
      → K (elim found as (λ _. Action S (Unit {0})) [ none ↦ pure (err x) | some f ↦ k f ])
  found-Keeps none k x q = pure-Keeps Dead (err x)
  found-Keeps (some f) k x q = q f

  revoke_one-Keeps :
      (o : OperatorPrincipal) (id session : Text) (now : ℕ)
      → K (admin_revoke_user_session sessions users sync app debug digest o id session now)
  unfolding admin_revoke_user_session
  revoke_one-Keeps o id session now = and_then-Keeps Dead _ _ (load-Keeps id) (λ user.
      and_then-Keeps Dead _ _ (on_store-Keeps Dead _ (λ s x. laws.list_keeps id j now 50 s ∙ x))
        (λ listed. found-Keeps (find_family digest session listed) _ _ (λ family.
          and_then-Keeps Dead _ _
            (on_store-Keeps Dead _ (λ s x. laws.revoke_family_keeps family j s ∙ x))
            (λ removed.
              if-Keeps Dead (removed == 0) _ _ (pure-Keeps Dead _) (emit_admin-Keeps o _ user _)))))

  write_claims-Keeps :
      (o : OperatorPrincipal) (id : Text) (user : User) (operation : Text) (c : List (Text × Value))
      → K (write_claims sessions users sync app debug digest o id user operation c)
  unfolding write_claims emit_claims_audit_event claims_only
  write_claims-Keeps o id user operation c =
      and_then-Keeps Dead _ _ (update_user-Keeps id (claims_only c) (λ _. refl))
        (λ _. emit_admin-Keeps o _ user _)

  answer-Keeps : {A : Type 0} (m : Action S A) → K m → K (and_then m (λ _. pure (ok tt)))
  answer-Keeps m q = and_then-Keeps Dead m _ q (λ _. pure-Keeps Dead (ok tt))

  perform-Keeps :
      (o : OperatorPrincipal) (m : Mutation) → K (perform sessions users sync app debug digest o m)
  unfolding admin_create_user admin_update_user admin_delete_user admin_revoke_user_sessions
      admin_set_claims admin_merge_claims admin_clear_claims
  perform-Keeps o (create u) = answer-Keeps _ (
      and_then-Keeps Dead _ _ (on_store-Keeps Dead _ (λ s d. laws.create_keeps u j deleted s d))
        (λ user. and_then-Keeps Dead _ _ (emit_admin-Keeps o _ user []) (λ _.
          and_then-Keeps Dead _ _
            (notified-Keeps (sync.notify_user_created user)
              (λ s x. laws.created_keeps user j s ∙ x))
            (λ _. pure-Keeps Dead (ok user)))))
  perform-Keeps o (update id p) = answer-Keeps _ (
      and_then-Keeps Dead _ _ (apply-Keeps id p) (λ user.
        and_then-Keeps Dead _ _ (emit_admin-Keeps o _ user []) (λ _.
          and_then-Keeps Dead _ _
            (notified-Keeps (sync.notify_user_updated user _)
              (λ s x. laws.updated_keeps user _ j s ∙ x))
            (λ _. pure-Keeps Dead (ok user)))))
  perform-Keeps o (delete id) = answer-Keeps _ (
      and_then-Keeps Dead _ _ (apply-Keeps id _) (λ user.
        and_then-Keeps Dead _ _ (emit_admin-Keeps o _ user []) (λ _.
          notified-Keeps (sync.notify_user_deleted id) (λ s x. laws.deleted_keeps id j s ∙ x))))
  perform-Keeps o (revoke_one id session now) = answer-Keeps _ (revoke_one-Keeps o id session now)
  perform-Keeps o (revoke_all id) = answer-Keeps _ (
      and_then-Keeps Dead _ _ (load-Keeps id) (λ user.
        and_then-Keeps Dead _ _ (on_store-Keeps Dead _ (λ s x. laws.revoke_all_keeps id j s ∙ x))
          (λ revoked.
            and_then-Keeps Dead _ _ (emit_admin-Keeps o _ user _)
              (λ _. pure-Keeps Dead (ok revoked)))))
  perform-Keeps o (set_claims id c) = answer-Keeps _ (
      and_then-Keeps Dead _ _ (pure-Keeps Dead _) (λ _.
        and_then-Keeps Dead _ _ (existing-Keeps id) (λ user. write_claims-Keeps o id user _ c)))
  perform-Keeps o (merge_claims id c) = answer-Keeps _ (
      and_then-Keeps Dead _ _ (pure-Keeps Dead _) (λ _.
        and_then-Keeps Dead _ _ (existing-Keeps id) (λ user. write_claims-Keeps o id user _ _)))
  perform-Keeps o (clear_claims id) =
      answer-Keeps _
        (and_then-Keeps Dead _ _ (existing-Keeps id) (λ user. write_claims-Keeps o id user _ []))

  -- A deleted user stays deleted, whatever mutations operators perform in a row, of this user or of
  -- others, and whatever the session repository, the notifications and the audit sink answer. The
  -- repositories keep their laws.
  pub performed-deleted :
      (ms : List (OperatorPrincipal × Mutation)) (w : World S)
      → status_of j w.store ≡ some deleted
      → status_of j (performed sessions users sync app debug digest ms w).store ≡ some deleted
  performed-deleted [] w d = d
  performed-deleted ((o, m) ∷ rest) w d = performed-deleted rest _ (perform-Keeps o m w d)
