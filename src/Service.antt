-- ===== src/Service.antt =====
-- crates/core/src/service/mod.rs: the session repository as the services see it, the service's
-- configuration and collaborators, and both ways of emitting an audit event. A flow is a function
-- of the world before it to its result and the world after it.
pub mod Flow
pub mod Refresh
pub mod Revoke
pub mod UserAdmin
pub mod Assertion
pub mod Lmdb
use oidc_exchange.Base.{
  ℕ, ◌<◌, Bool, true, false, Option, none, some, List, [], ◌∷◌, Text, ltb, if◌then◌else◌, not,
}
use oidc_exchange.Error.{Error, Result, ok, err, panicked, security_audit_durability}
use oidc_exchange.Domain.Session.{Session, RefreshResolution}
use oidc_exchange.Domain.User.{User}
use oidc_exchange.Domain.Audit.{
  AuditSeverity, rank, AuditOutcome, SecurityEvent, ClientAddr, Value, AuditEvent, into_audit_event,
}

-- The port `SessionRepository` on a store of type `S`, without its cleanup, which no flow here calls.
-- A number before the store is the clock that the method reads.
pub record SessionRepository (S : Type 0) : Type 0 where
  pub get_session_by_refresh_token : Text → S → Result (Option Session) × S
  pub resolve_refresh_token : Text → ℕ → S → Result RefreshResolution × S
  pub rotate_refresh_token : Text → Session → ℕ → S → Result Bool × S
  pub revoke_session : Text → S → Result (Unit {0}) × S
  pub revoke_family : Text → S → Result ℕ × S
  pub store_refresh_token : Session → S → Result (Unit {0}) × S
  pub revoke_all_user_sessions : Text → S → Result ℕ × S
  pub list_live_sessions : Text → ℕ → ℕ → S → Result (List Session) × S
  pub count_active_sessions : ℕ → S → Result ℕ × S
  pub put_single_use : Text → ℕ → ℕ → S → Result Bool × S
  pub take_single_use : Text → ℕ → S → Result Bool × S

-- The settings that the flows read, and the collaborators outside of the session store: the user
-- repository, the signing of an access token, the audit sink, and `to_string` of an error.
pub record AppService : Type 0 where
  pub refresh_rotation : Bool
  pub refresh_rotation_grace : ℕ  -- seconds
  pub emit_threshold : AuditSeverity
  pub blocking_threshold : AuditSeverity
  pub is_enforce : Bool
  pub get_user_by_id : Text → Result (Option User)
  pub build_access_token : User → Text → Result (Text × ℕ)
  pub emit : AuditEvent → Option Error
  pub to_string : Error → Text

-- The store, and the events that the sink was given, the newest first.
pub record World (S : Type 0) : Type 0 where
  pub store : S
  pub events : List AuditEvent

abbrev pub Action : Type 0 → Type 0 → Type 0
Action S A = World S → Result A × World S

module _ {S : Type 0} where
  unfoldable pub pure : {A : Type 0} → Result A → Action S A
  pure a w = (a, w)

  -- `?` after a call.
  unfoldable pub and_then : {A B : Type 0} → Action S A → (A → Action S B) → Action S B
  and_then m k w =
      let (a, w') = m w in
      elim a [ ok x ↦ k x w' | err e ↦ (err e, w') | panicked ↦ (panicked, w') ]

  -- A call of the repository.
  unfoldable pub on_store : {A : Type 0} → (S → Result A × S) → Action S A
  on_store f w = let (a, s) = f w.store in (a, record w { store = s })

  unfoldable pub hand_over : AppService → AuditEvent → World S → World S
  hand_over app event w = record w { events = event ∷ w.events }

  -- `emit_audit`: an event under the threshold is dropped, and a failed sink fails the flow only for
  -- a grave event.
  unfoldable pub emit_audit : AppService → AuditEvent → Action S (Unit {0})
  unfolding hand_over
  emit_audit app event w =
      if ltb (rank app.emit_threshold) (rank event.severity)
      then (ok tt, w)
      else elim (app.emit event) [
        | none ↦ (ok tt, hand_over app event w)
        | some e ↦
            if ltb (rank app.blocking_threshold) (rank event.severity)
            then (ok tt, hand_over app event w)
            else (err e, hand_over app event w)
      ]

  -- `emit_mandatory_audit_event`
  unfoldable pub emit_mandatory_audit_event : AppService → AuditEvent → Action S (Unit {0})
  unfolding hand_over
  emit_mandatory_audit_event app event w = elim (app.emit event) [
    | none ↦ (ok tt, hand_over app event w)
    | some e ↦
        if app.is_enforce
        then (err (security_audit_durability (app.to_string e)), hand_over app event w)
        else (ok tt, hand_over app event w)
  ]

  unfoldable pub emit_security_event_with_detail :
      AppService
      → SecurityEvent
      → AuditOutcome
      → Option Text
      → Option Text
      → ClientAddr
      → Option Text
      → List (Text × Value)
      → Action S (Unit {0})
  emit_security_event_with_detail app event outcome actor provider client_addr user_agent detail =
      emit_mandatory_audit_event app
        (record (into_audit_event event outcome actor provider client_addr user_agent) {
          detail = detail;
        })

  unfoldable pub emit_security_event :
      AppService
      → SecurityEvent
      → AuditOutcome
      → Option Text
      → Option Text
      → ClientAddr
      → Option Text
      → Action S (Unit {0})
  unfolding emit_security_event_with_detail
  emit_security_event app event outcome actor provider client_addr user_agent =
      emit_security_event_with_detail app event outcome actor provider client_addr user_agent []
