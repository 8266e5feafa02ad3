-- ===== src/Service/UserAdmin.antt =====
-- crates/core/src/service/user_admin.rs: the administration of users and of their sessions.
pub mod Claims
pub mod Calls
pub mod Attributed
pub mod Refused
pub mod Lifecycle
use oidc_exchange.Base.{
  ℕ, ◌+◌, ◌%◌, ◌^◌, Bool, true, false, not, ◌&&◌, ◌||◌, Option, none, some, List, [], ◌∷◌, ◌++◌,
  map, Text, codes, length, leb, ltb, ◌==◌, text_eq, is_empty, keep, if◌then◌else◌, get,
}
use oidc_exchange.Error.{Error, Result, ok, err, panicked, invalid_request, not_found}
use oidc_exchange.Domain.Session.{Session, SessionSummary, session_id_for_family, summary}
use oidc_exchange.Domain.User.{
  User, UserStatus, NewUser, UserPatch, UserPage, active, suspended, deleted, can_transition_to,
  status_eq, status_text, clamp_admin_page_limit, default_admin_page_size, max_admin_page_size,
}
use oidc_exchange.Domain.Operator.{OperatorPrincipal, holds_invariants}
use oidc_exchange.Domain.Audit
use oidc_exchange.Domain.Audit.{
  AuditEvent, AdminMutationKind, Value, text, number, success, admin_mutation, into_audit_event,
}
use oidc_exchange.Token.Claims.{find_reserved_claim_key, insert}
use oidc_exchange.Service.{
  SessionRepository, AppService, Action, pure, and_then, on_store, emit_mandatory_audit_event,
}

-- The ports `UserRepository` and `UserSync`, on the same store.
pub record UserRepository (S : Type 0) : Type 0 where
  pub get_user_by_id : Text → S → Result (Option User) × S
  pub create_user : NewUser → S → Result User × S
  pub update_user : Text → UserPatch → S → Result User × S
  pub count_by_status : S → Result (List (Text × ℕ)) × S
  pub list_users : Option Text → ℕ → S → Result UserPage × S

pub record UserSync (S : Type 0) : Type 0 where
  pub notify_user_created : User → S → Result (Unit {0}) × S
  pub notify_user_updated : User → List Text → S → Result (Unit {0}) × S
  pub notify_user_deleted : Text → S → Result (Unit {0}) × S

abbrev pub max_listed_sessions : ℕ
max_listed_sessions = 50

-- The assertions that the event is not attributed yet hold by construction.
unfoldable pub attributed : AuditEvent → OperatorPrincipal → Result AuditEvent
attributed event operator =
    if holds_invariants operator then ok (record event { operator = some operator }) else panicked

unfoldable pub mutation_event : AdminMutationKind → User → AuditEvent
mutation_event kind user =
    into_audit_event (admin_mutation kind) success (some user.id) (some user.provider)
      Audit.ClientAddr.unknown none

unfoldable pub ensure_no_reserved_claims :
    {V : Type 0} → (Text → Text) → List (Text × V) → Result (Unit {0})
ensure_no_reserved_claims debug claims = elim (find_reserved_claim_key claims) [
  | none ↦ ok tt
  | some key ↦ err (
      invalid_request (
        codes "claim name "
        ++ debug key
        ++ codes " is reserved by the token protocol and cannot be written"))
]

-- Whether the patch moves the user into a status without sessions.
unfoldable pub entered_suspended_or_deleted : UserStatus → Option UserStatus → Bool
entered_suspended_or_deleted current none = false
entered_suspended_or_deleted current (some active) = false
entered_suspended_or_deleted current (some target) = not (status_eq target current)

unfoldable pub claims_only : List (Text × Value) → UserPatch
claims_only claims = record {
  email = none;
  display_name = none;
  metadata = none;
  claims = some claims;
  status = none;
}

unfoldable pub status_only : UserStatus → UserPatch
status_only status = record {
  email = none;
  display_name = none;
  metadata = none;
  claims = none;
  status = some status;
}

-- The new entries over the old ones.
unfoldable pub merged_claims : List (Text × Value) → List (Text × Value) → List (Text × Value)
merged_claims merged [] = merged
merged_claims merged ((k, v) ∷ m) = merged_claims (insert k v merged) m

unfoldable pub is_deleted : UserStatus → Bool
is_deleted deleted = true
is_deleted _ = false

unfoldable pub is_suspension : Option UserStatus → Bool
is_suspension (some suspended) = true
is_suspension _ = false

abbrev field : {A : Type 0} → Option A → Text → List Text → List Text
field none name rest = rest
field (some _) name rest = name ∷ rest

unfoldable pub changed_fields : UserPatch → List Text
changed_fields patch = field patch.email (codes "email") (
    field patch.display_name (codes "display_name") (
      field patch.metadata (codes "metadata")
        (field patch.claims (codes "claims") (field patch.status (codes "status") []))))

-- The first family whose id is the session's.
unfoldable pub find_family : (Text → Text) → Text → List Session → Option Text
find_family digest session_id [] = none
find_family digest session_id (s ∷ rest) =
    let later = find_family digest session_id rest in
    if not (is_empty s.family_id) && text_eq (session_id_for_family digest s.family_id) session_id
    then some s.family_id
    else later

unfoldable pub count_of : Text → List (Text × ℕ) → ℕ
count_of status counts = elim (get status counts) [ none ↦ 0 | some n ↦ n ]

pub record AdminStats : Type 0 where
  pub total : ℕ
  pub active_users : ℕ
  pub suspended_users : ℕ
  pub deleted_users : ℕ
  pub active_sessions : ℕ

module _ {S : Type 0} (sessions : SessionRepository S) (users : UserRepository S)
    (sync : UserSync S) (app : AppService) (debug : Text → Text) (digest : Text → Text) where
  abbrev pub not_found_user : Text → Error
  not_found_user user_id = not_found (codes "user not found: " ++ user_id)

  -- A failed notification is only logged.
  unfoldable pub notified : (S → Result (Unit {0}) × S) → Action S (Unit {0})
  unfolding on_store
  notified call w =
      let (a, w') = on_store call w in
      elim a [ ok _ ↦ (ok tt, w') | err _ ↦ (ok tt, w') | panicked ↦ (panicked, w') ]

  -- `get_user_by_id(..).await?.ok_or_else(..)?`
  unfoldable pub existing_user : Text → Action S User
  existing_user user_id =
      and_then (on_store (users.get_user_by_id user_id))
        (λ found. pure (elim found [ none ↦ err (not_found_user user_id) | some user ↦ ok user ]))

  unfoldable pub load_live_user : Text → Action S User
  load_live_user user_id =
      and_then (existing_user user_id)
        (λ user. pure (if is_deleted user.status then err (not_found_user user_id) else ok user))

  unfoldable pub emit_admin_mutation :
      OperatorPrincipal → AdminMutationKind → User → List (Text × Value) → Action S (Unit {0})
  emit_admin_mutation operator kind user detail =
      and_then (pure (attributed (mutation_event kind user) operator))
        (λ event. emit_mandatory_audit_event app (record event { detail = detail }))

  unfoldable pub admin_create_user : OperatorPrincipal → NewUser → Action S User
  admin_create_user operator new_user = and_then (on_store (users.create_user new_user)) (λ user.
      and_then (emit_admin_mutation operator Audit.created user [])
        (λ _. and_then (notified (sync.notify_user_created user)) (λ _. pure (ok user))))

  unfoldable pub admin_get_user : Text → Action S (Option User)
  admin_get_user user_id = on_store (users.get_user_by_id user_id)

  -- `now` is the clock.
  unfoldable pub admin_list_user_sessions : Text → ℕ → Action S (Option (List SessionSummary))
  admin_list_user_sessions user_id now =
      and_then (on_store (users.get_user_by_id user_id)) (λ found. elim found [
        | none ↦ pure (ok none)
        | some user ↦
            if is_deleted user.status
            then pure (ok none)
            else and_then (on_store (sessions.list_live_sessions user_id now max_listed_sessions))
                (λ listed. pure (
                  ok (some (map (summary digest) (keep (λ s. not (is_empty s.family_id)) listed)))))
      ])

  unfoldable pub admin_revoke_user_session :
      OperatorPrincipal → Text → Text → ℕ → Action S (Unit {0})
  admin_revoke_user_session operator user_id session_id now =
      let missing = not_found (codes "session not found: " ++ session_id) in
      and_then (load_live_user user_id) (λ user.
        and_then (on_store (sessions.list_live_sessions user_id now max_listed_sessions)) (λ listed.
          elim (find_family digest session_id listed) [
            | none ↦ pure (err missing)
            | some family_id ↦ and_then (on_store (sessions.revoke_family family_id)) (λ removed.
                if removed == 0
                then pure (err missing)
                else emit_admin_mutation operator Audit.session_revoked user
                    ((codes "session_id", text session_id) ∷ []))
          ]))

  unfoldable pub admin_revoke_user_sessions : OperatorPrincipal → Text → Action S ℕ
  admin_revoke_user_sessions operator user_id = and_then (load_live_user user_id) (λ user.
      and_then (on_store (sessions.revoke_all_user_sessions user_id)) (λ revoked.
        and_then
          (emit_admin_mutation operator Audit.sessions_revoked user
            ((codes "sessions_revoked", number revoked) ∷ []))
          (λ _. pure (ok revoked))))

  unfoldable pub ensure_patch_claims : UserPatch → Result (Unit {0})
  ensure_patch_claims patch = elim patch.claims [
    | none ↦ ok tt
    | some claims ↦ ensure_no_reserved_claims debug claims
  ]

  unfoldable pub ensure_transition : UserStatus → Option UserStatus → Result (Unit {0})
  ensure_transition current none = ok tt
  ensure_transition current (some target) =
      if can_transition_to current target
      then ok tt
      else err (
          invalid_request (
            codes "invalid status transition: "
            ++ status_text current
            ++ codes " -> "
            ++ status_text target))

  -- The write of a patch that passed, and the revocation of the sessions.
  unfoldable pub apply_patch : Text → UserPatch → UserStatus → Action S User
  apply_patch user_id patch current = and_then (on_store (users.update_user user_id patch)) (λ user.
      if entered_suspended_or_deleted current patch.status
      then and_then (on_store (sessions.revoke_all_user_sessions user_id)) (λ _. pure (ok user))
      else pure (ok user))

  unfoldable pub apply_validated_patch : Text → UserPatch → Action S User
  unfolding apply_patch
  apply_validated_patch user_id patch = and_then (pure (ensure_patch_claims patch)) (λ _.
      and_then (existing_user user_id) (λ current.
        and_then (pure (ensure_transition current.status patch.status))
          (λ _. apply_patch user_id patch current.status)))

  unfoldable pub admin_update_user : OperatorPrincipal → Text → UserPatch → Action S User
  admin_update_user operator user_id patch = and_then (apply_validated_patch user_id patch) (λ user.
      and_then
        (emit_admin_mutation operator
          (if is_suspension patch.status then Audit.suspended else Audit.updated) user [])
        (λ _.
          and_then (notified (sync.notify_user_updated user (changed_fields patch)))
            (λ _. pure (ok user))))

  unfoldable pub admin_delete_user : OperatorPrincipal → Text → Action S (Unit {0})
  admin_delete_user operator user_id =
      and_then (apply_validated_patch user_id (status_only deleted)) (λ user.
        and_then (emit_admin_mutation operator Audit.deleted user [])
          (λ _. notified (sync.notify_user_deleted user_id)))

  unfoldable pub admin_stats : ℕ → Action S AdminStats
  admin_stats now = and_then (on_store users.count_by_status) (λ counts.
      and_then (on_store (sessions.count_active_sessions now)) (λ live.
        let a = count_of (codes "active") counts in
        let s = count_of (codes "suspended") counts in
        let d = count_of (codes "deleted") counts in
        pure (
          ok (record {
            total = (a + s + d) % 2 ^ 64;
            active_users = a;
            suspended_users = s;
            deleted_users = d;
            active_sessions = live;
          }))))

  unfoldable pub effective_limit : Option ℕ → Result ℕ
  effective_limit none = ok default_admin_page_size
  effective_limit (some requested) = clamp_admin_page_limit requested

  unfoldable pub admin_list_users : Option Text → Option ℕ → Action S UserPage
  admin_list_users cursor limit = and_then (pure (effective_limit limit)) (λ n.
      if not (leb 1 n) || not (leb n max_admin_page_size)
      then pure panicked
      else and_then (on_store (users.list_users cursor n))
          (λ page. if leb (length page.users) n then pure (ok page) else pure panicked))
