-- ===== src/Service/UserAdmin/Attributed.antt =====
-- crates/core/src/service/user_admin.rs: every record of an admin mutation names its operator.
use oidc_exchange.Base.{
  ℕ, ◌≡◌, refl, sym, subst, ap, ◌∙◌, Bool, true, false, Option, none, some, List, [], ◌∷◌, Text,
  ◌==◌, if◌then◌else◌, inl, inr, Option-cases, arith,
}
use oidc_exchange.Error.{Error, Result, ok, err, panicked, Result-cases}
use oidc_exchange.Domain.User.{User, UserPatch}
use oidc_exchange.Domain.Operator.{OperatorPrincipal, holds_invariants}
use oidc_exchange.Domain.Audit.{AuditEvent, AdminMutationKind, Value}
use oidc_exchange.Service.{
  SessionRepository, AppService, World, Action, pure, and_then, on_store,
  emit_mandatory_audit_event,
}
use oidc_exchange.Service.Flow.{and_then-ok, and_then-err, and_then-panicked}
use oidc_exchange.Service.UserAdmin.{
  UserRepository, UserSync, attributed, notified, existing_user, load_live_user,
  emit_admin_mutation, apply_patch, apply_validated_patch, entered_suspended_or_deleted,
  find_family, admin_create_user, admin_update_user, admin_delete_user, admin_revoke_user_session,
  admin_revoke_user_sessions,
}
use oidc_exchange.Service.UserAdmin.Claims.{
  emit_claims_audit_event, write_claims, admin_set_claims, admin_merge_claims, admin_clear_claims,
}
use oidc_exchange.Service.UserAdmin.Calls.{
  Mutation, create, update, delete, revoke_one, revoke_all, set_claims, merge_claims, clear_claims,
  perform,
}

-- At most one event is new, and it names the operator, who is well formed.
pub data Signed (operator : OperatorPrincipal) (before : List AuditEvent)
    : List AuditEvent → Type 0 where
  silent : Signed operator before before
  signed :
      (e : AuditEvent)
      → e.operator ≡ some operator
      → holds_invariants operator ≡ true
      → Signed operator before (e ∷ before)

module _ {S : Type 0} where
  -- The flow hands no event to the sink.
  abbrev Silent : {A : Type 0} → Action S A → Type 0
  Silent m = (w : World S) → (m w).1.events ≡ w.events

  abbrev Signs : {A : Type 0} → OperatorPrincipal → Action S A → Type 0
  Signs o m = (w : World S) → Signed o w.events (m w).1.events

  pure-Silent : {A : Type 0} (a : Result A) → Silent (pure a)
  unfolding pure
  pure-Silent a w = refl

  on_store-Silent : {A : Type 0} (f : S → Result A × S) → Silent (on_store f)
  unfolding on_store
  on_store-Silent f w = refl

  and_then-Silent :
      {A B : Type 0} (m : Action S A) (k : A → Action S B)
      → Silent m
      → ((a : A) → Silent (k a))
      → Silent (and_then m k)
  and_then-Silent m k q f w = elim (Result-cases (m w).0) [
    | inl (a, h) ↦ ap (λ r. r.1.events) (and_then-ok m k w a h) ∙ f a (m w).1 ∙ q w
    | inr (inl (x, h)) ↦ ap (λ r. r.1.events) (and_then-err m k w x h) ∙ q w
    | inr (inr h) ↦ ap (λ r. r.1.events) (and_then-panicked m k w h) ∙ q w
  ]

  module _ (o : OperatorPrincipal) where
    Silent-Signs : {A : Type 0} (m : Action S A) → Silent m → Signs o m
    Silent-Signs m q w = subst (λ (x : List AuditEvent). Signed o w.events x) (sym (q w)) silent

    -- What is silent, before what signs.
    before-Signs :
        {A B : Type 0} (m : Action S A) (k : A → Action S B)
        → Silent m
        → ((a : A) → Signs o (k a))
        → Signs o (and_then m k)
    before-Signs m k q f w =
        let Case = λ (r : Result _ × World S). Signed o w.events r.1.events in
        elim (Result-cases (m w).0) as (λ _. Case (and_then m k w)) [
          | inl (a, h) ↦ subst Case (sym (and_then-ok m k w a h)) (
              subst (λ (x : List AuditEvent). Signed o x (k a (m w).1).1.events) (q w)
                (f a (m w).1))
          | inr (inl (x, h)) ↦ subst Case (sym (and_then-err m k w x h)) (Silent-Signs m q w)
          | inr (inr h) ↦ subst Case (sym (and_then-panicked m k w h)) (Silent-Signs m q w)
        ]

    -- What signs, before what is silent.
    after-Signs :
        {A B : Type 0} (m : Action S A) (k : A → Action S B)
        → Signs o m
        → ((a : A) → Silent (k a))
        → Signs o (and_then m k)
    after-Signs m k q f w =
        let Case = λ (r : Result _ × World S). Signed o w.events r.1.events in
        elim (Result-cases (m w).0) as (λ _. Case (and_then m k w)) [
          | inl (a, h) ↦
              subst Case (sym (and_then-ok m k w a h))
                (subst (λ (x : List AuditEvent). Signed o w.events x) (sym (f a (m w).1)) (q w))
          | inr (inl (x, h)) ↦ subst Case (sym (and_then-err m k w x h)) (q w)
          | inr (inr h) ↦ subst Case (sym (and_then-panicked m k w h)) (q w)
        ]

    refusal-Signs : {A : Type 0} (r : Result A) → Signs o (pure r)
    refusal-Signs r = Silent-Signs (pure r) (pure-Silent r)

    if-Signs :
        {A : Type 0} (b : Bool) (m n : Action S A)
        → Signs o m
        → Signs o n
        → Signs o (if b then m else n)
    if-Signs true m n p q = p
    if-Signs false m n p q = q

  emit-events :
      (app : AppService) (e : AuditEvent) (w : World S)
      → (emit_mandatory_audit_event app e w).1.events ≡ e ∷ w.events
  unfolding emit_mandatory_audit_event
  emit-events app e w = ground (arith, Option-cases (app.emit e))

  emit-Signs :
      (app : AppService) (o : OperatorPrincipal) (e : AuditEvent)
      → e.operator ≡ some o
      → holds_invariants o ≡ true
      → Signs o (emit_mandatory_audit_event app e)
  emit-Signs app o e h i w =
      subst (λ (x : List AuditEvent). Signed o w.events x) (sym (emit-events app e w))
        (signed e h i)

module _ {S : Type 0} (sessions : SessionRepository S) (users : UserRepository S)
    (sync : UserSync S) (app : AppService) (debug : Text → Text) (digest : Text → Text)
    (o : OperatorPrincipal) where
  checked-Signs :
      (b : Bool) (x : AuditEvent) (k : AuditEvent → Action S (Unit {0}))
      → (b ≡ true → Signs o (k x))
      → Signs o (and_then (pure (if b then ok x else panicked)) k)
  unfolding and_then pure
  checked-Signs true x k q w = q refl w
  checked-Signs false x k q w = silent

  emit_admin-Signs :
      (kind : AdminMutationKind) (user : User) (detail : List (Text × Value))
      → Signs o (emit_admin_mutation sessions users sync app debug digest o kind user detail)
  unfolding emit_admin_mutation attributed
  emit_admin-Signs kind user detail =
      checked-Signs (holds_invariants o) _ _ (λ h. emit-Signs app o _ refl h)

  notified-Silent :
      (f : S → Result (Unit {0}) × S) → Silent (notified sessions users sync app debug digest f)
  unfolding notified on_store
  notified-Silent f w = ground (arith, Result-cases (f w.store).0)

  existing-Silent : (id : Text) → Silent (existing_user sessions users sync app debug digest id)
  unfolding existing_user
  existing-Silent id = and_then-Silent _ _ (on_store-Silent _) (λ _. pure-Silent _)

  load-Silent : (id : Text) → Silent (load_live_user sessions users sync app debug digest id)
  unfolding load_live_user
  load-Silent id = and_then-Silent _ _ (existing-Silent id) (λ _. pure-Silent _)

  if-Silent :
      {A : Type 0} (b : Bool) (m n : Action S A) → Silent m → Silent n → Silent (if b then m else n)
  if-Silent true m n p q = p
  if-Silent false m n p q = q

  apply-Silent :
      (id : Text) (p : UserPatch)
      → Silent (apply_validated_patch sessions users sync app debug digest id p)
  unfolding apply_validated_patch apply_patch
  apply-Silent id p = and_then-Silent _ _ (pure-Silent _) (λ _.
      and_then-Silent _ _ (existing-Silent id) (λ current. and_then-Silent _ _ (pure-Silent _) (λ _.
        and_then-Silent _ _ (on_store-Silent _) (λ user.
          if-Silent (entered_suspended_or_deleted current.status p.status) _ _
            (and_then-Silent _ _ (on_store-Silent _) (λ _. pure-Silent (ok user)))
            (pure-Silent (ok user))))))

  update-Signs :
      (id : Text) (p : UserPatch)
      → Signs o (admin_update_user sessions users sync app debug digest o id p)
  unfolding admin_update_user
  update-Signs id p = before-Signs o _ _ (apply-Silent id p) (λ user.
      after-Signs o _ _ (emit_admin-Signs _ user [])
        (λ _. and_then-Silent _ _ (notified-Silent _) (λ _. pure-Silent (ok user))))

  delete-Signs : (id : Text) → Signs o (admin_delete_user sessions users sync app debug digest o id)
  unfolding admin_delete_user
  delete-Signs id =
      before-Signs o _ _ (apply-Silent id _)
        (λ user. after-Signs o _ _ (emit_admin-Signs _ user []) (λ _. notified-Silent _))

  found-Signs :
      (found : Option Text) (k : Text → Action S (Unit {0})) (x : Error)
      → ((f : Text) → Signs o (k f))
      → Signs o (elim found as (λ _. Action S (Unit {0})) [ none ↦ pure (err x) | some f ↦ k f ])
  found-Signs none k x q = refusal-Signs o (err x)
  found-Signs (some f) k x q = q f

  revoke_one-Signs :
      (id session : Text) (now : ℕ)
      → Signs o (admin_revoke_user_session sessions users sync app debug digest o id session now)
  unfolding admin_revoke_user_session
  revoke_one-Signs id session now = before-Signs o _ _ (load-Silent id) (λ user.
      before-Signs o _ _ (on_store-Silent _) (λ listed.
        found-Signs (find_family digest session listed) _ _ (λ family.
          before-Signs o _ _ (on_store-Silent _) (λ removed.
            if-Signs o (removed == 0) _ _ (refusal-Signs o _) (emit_admin-Signs _ user _)))))

  revoke_all-Signs :
      (id : Text) → Signs o (admin_revoke_user_sessions sessions users sync app debug digest o id)
  unfolding admin_revoke_user_sessions
  revoke_all-Signs id = before-Signs o _ _ (load-Silent id) (λ user.
      before-Signs o _ _ (on_store-Silent _)
        (λ revoked. after-Signs o _ _ (emit_admin-Signs _ user _) (λ _. pure-Silent (ok revoked))))

  write_claims-Signs :
      (id : Text) (user : User) (operation : Text) (c : List (Text × Value))
      → Signs o (write_claims sessions users sync app debug digest o id user operation c)
  unfolding write_claims emit_claims_audit_event
  write_claims-Signs id user operation c =
      before-Signs o _ _ (on_store-Silent _) (λ _. emit_admin-Signs _ user _)

  answered-Signs :
      {A : Type 0} (m : Action S A) → Signs o m → Signs o (and_then m (λ _. pure (ok tt)))
  answered-Signs m q = after-Signs o m _ q (λ _. pure-Silent (ok tt))

  -- A mutation of the admin plane hands at most one event to the sink, and that event names the
  -- operator who acts, whose principal is well formed.
  pub perform-Signed :
      (m : Mutation) (w : World S)
      → Signed o w.events (perform sessions users sync app debug digest o m w).1.events
  unfolding admin_create_user admin_set_claims admin_merge_claims admin_clear_claims
  perform-Signed (create u) = answered-Signs _ (
      before-Signs o _ _ (on_store-Silent _) (λ user.
        after-Signs o _ _ (emit_admin-Signs _ user [])
          (λ _. and_then-Silent _ _ (notified-Silent _) (λ _. pure-Silent (ok user)))))
  perform-Signed (update id p) = answered-Signs _ (update-Signs id p)
  perform-Signed (delete id) = answered-Signs _ (delete-Signs id)
  perform-Signed (revoke_one id session now) = answered-Signs _ (revoke_one-Signs id session now)
  perform-Signed (revoke_all id) = answered-Signs _ (revoke_all-Signs id)
  perform-Signed (set_claims id c) = answered-Signs _ (
      before-Signs o _ _ (pure-Silent _)
        (λ _. before-Signs o _ _ (existing-Silent id) (λ user. write_claims-Signs id user _ c)))
  perform-Signed (merge_claims id c) = answered-Signs _ (
      before-Signs o _ _ (pure-Silent _)
        (λ _. before-Signs o _ _ (existing-Silent id) (λ user. write_claims-Signs id user _ _)))
  perform-Signed (clear_claims id) =
      answered-Signs _
        (before-Signs o _ _ (existing-Silent id) (λ user. write_claims-Signs id user _ []))
