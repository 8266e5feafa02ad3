-- ===== src/Service/Refresh/Gates.antt =====
-- crates/core/src/service/refresh.rs: what a redemption may write, and when it writes nothing.
use oidc_exchange.Base.{ℕ, Bool, false, not, ◌||◌, Option, none, some, Text, ltb, is_empty}
use oidc_exchange.Error.{panicked}
use oidc_exchange.Domain.Session.{
  Session, RefreshResolution, live, superseded, retired, unknown, is_valid_family_id,
}
use oidc_exchange.Domain.User.{User}
use oidc_exchange.Service.{SessionRepository, AppService, Action, emit_security_event_with_detail}
use oidc_exchange.Service.Flow.{
  Quiet, emit_audit-Quiet, emit_mandatory-Quiet, pure-Quiet, and_then-Quiet, if-Quiet,
}
use oidc_exchange.Service.Refresh.{
  RefreshRequest, TokenResponse, Draws, is_active, refuse_with_validation_failed,
  audit_successful_refresh, user_gate, gated, respond, refresh_without_rotation,
}

module _ {S : Type 0} (repo : SessionRepository S) (app : AppService) (draws : Draws)
    (request : RefreshRequest) where
  pub refuse-Quiet :
      (reason : Text) (actor : Option Text)
      → Quiet (refuse_with_validation_failed repo app draws request reason actor)
  unfolding refuse_with_validation_failed
  refuse-Quiet reason actor =
      if-Quiet (is_empty reason) _ _ (pure-Quiet panicked)
        (and_then-Quiet _ _ (emit_audit-Quiet app _) (λ _. pure-Quiet _))

  audit_successful-Quiet :
      (u f : Text) (g : ℕ) (b : Bool)
      → Quiet (audit_successful_refresh repo app draws request u f g b)
  unfolding audit_successful_refresh emit_security_event_with_detail
  audit_successful-Quiet u f g b =
      if-Quiet (is_empty u || not (is_empty f || is_valid_family_id f)) _ _ (pure-Quiet panicked)
        (emit_mandatory-Quiet app _)

  respond-Quiet :
      (user : User) (session : Session) (b : Bool) (t : Option Text)
      → Quiet (respond repo app draws request user session b t)
  unfolding respond
  respond-Quiet user session b t = and_then-Quiet _ _ (pure-Quiet _) (λ _.
      and_then-Quiet _ _ (audit_successful-Quiet user.id session.family_id session.generation b)
        (λ _. pure-Quiet _))

  user_gate-Quiet :
      (session : Session) (found : Option User) (serve : User → Action S TokenResponse)
      → ((u : User) → Quiet (serve u))
      → Quiet (user_gate repo app draws request session found serve)
  unfolding user_gate emit_security_event_with_detail
  user_gate-Quiet session none serve q = refuse-Quiet _ _
  user_gate-Quiet session (some user) serve q =
      if-Quiet (is_active user.status) _ _ (q user)
        (and_then-Quiet _ _ (emit_mandatory-Quiet app _) (λ _. pure-Quiet _))

  gated-Quiet :
      (session : Session) (serve : User → Action S TokenResponse)
      → ((u : User) → Quiet (serve u))
      → Quiet (gated repo app draws request session serve)
  unfolding gated
  gated-Quiet session serve q =
      if-Quiet (ltb session.expires_at draws.at_expiry) _ _ (refuse-Quiet _ _)
        (and_then-Quiet _ _ (pure-Quiet _) (λ found. user_gate-Quiet session found serve q))

  pub refresh_without_rotation-Quiet :
      (resolution : RefreshResolution)
      → Quiet (refresh_without_rotation repo app draws request resolution)
  unfolding refresh_without_rotation
  refresh_without_rotation-Quiet (live session) =
      if-Quiet (is_empty session.refresh_token_hash) _ _ (pure-Quiet panicked)
        (gated-Quiet session _ (λ u. respond-Quiet u session false none))
  refresh_without_rotation-Quiet (superseded _ _) = refuse-Quiet _ _
  refresh_without_rotation-Quiet (retired _ _ _) = refuse-Quiet _ _
  refresh_without_rotation-Quiet unknown = refuse-Quiet _ _
