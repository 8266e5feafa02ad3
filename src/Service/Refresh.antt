-- ===== src/Service/Refresh.antt =====
-- crates/core/src/service/refresh.rs: the redemption of a refresh token.
pub mod Gates
pub mod Outcomes
pub mod Reuse
pub mod Barred
use oidc_exchange.Base.{
  ℕ, ◌+◌, ◌-◌, ◌%◌, ◌^◌, Bool, true, false, Option, none, some, List, [], ◌∷◌, Text, codes, ltb,
  leb, ◌==◌, text_eq, length, is_empty, if◌then◌else◌, not, ◌&&◌, ◌||◌,
}
use oidc_exchange.Error.{Error, Result, ok, err, panicked, assert, invalid_token, user_suspended}
use oidc_exchange.Domain.Session.{
  Session, RefreshResolution, live, superseded, retired, unknown, is_valid_family_id, seconds,
}
use oidc_exchange.Domain.User.{User, UserStatus, active, suspended, deleted}
use oidc_exchange.Domain.Audit
use oidc_exchange.Domain.Audit.{
  ClientAddr, Value, text, number, flag, success, failure, debug, authentication_succeeded,
  create_audit_event,
}
use oidc_exchange.Service.{
  SessionRepository, AppService, World, Action, pure, and_then, on_store, emit_audit,
  emit_security_event_with_detail,
}

abbrev pub unknown_refresh_token_reason : Text
unknown_refresh_token_reason = codes "unknown refresh token"

abbrev pub expired_refresh_token_reason : Text
expired_refresh_token_reason = codes "refresh token expired"

abbrev pub missing_user_reason : Text
missing_user_reason = codes "user not found"

abbrev pub refresh_hash_hex_len : ℕ
refresh_hash_hex_len = 64

abbrev pub max_refresh_rotation_grace_secs : ℕ
max_refresh_rotation_grace_secs = 60

pub record RefreshRequest : Type 0 where
  pub refresh_token : Text
  pub client_addr : ClientAddr
  pub user_agent : Option Text
  pub device_id : Option Text

pub record TokenResponse : Type 0 where
  pub access_token : Text
  pub refresh_token : Option Text
  pub token_type : Text
  pub expires_in : ℕ

-- What a redemption draws from outside: the clock at each reading, the fresh token and the fresh
-- family id, and the hexadecimal SHA-256 digest.
pub record Draws : Type 0 where
  pub at_resolve : ℕ
  pub at_grace : ℕ
  pub at_expiry : ℕ
  pub at_mint : ℕ
  pub at_swap : ℕ
  pub raw_token : Text
  pub new_family_id : Text
  pub digest : Text → Text

unfoldable pub is_active : UserStatus → Bool
is_active active = true
is_active suspended = false
is_active deleted = false

unfoldable pub within_grace : ℕ → ℕ → ℕ → Bool
within_grace now retired_at grace_secs = leb (now - retired_at) (seconds grace_secs)

unfoldable pub mint_replacement : Draws → Session → Result (Text × Session)
mint_replacement draws live' =
    let token_hash = draws.digest draws.raw_token in
    let family_id = if is_empty live'.family_id then draws.new_family_id else live'.family_id in
    if is_empty live'.refresh_token_hash
      || not (length token_hash == refresh_hash_hex_len)
      || text_eq token_hash live'.refresh_token_hash
      || not (is_valid_family_id family_id)
    then panicked
    else ok (
      draws.raw_token,
      record live' {
        refresh_token_hash = token_hash;
        family_id = family_id;
        generation = (live'.generation + 1) % 2 ^ 32;
        rotated_at = some draws.at_mint;
      },
    )

module _ {S : Type 0} (repo : SessionRepository S) (app : AppService) (draws : Draws)
    (request : RefreshRequest) where
  -- The event of a refusal.
  abbrev pub refusal : Option Text → Audit.AuditEvent
  refusal actor =
      create_audit_event Audit.validation_failed Audit.debug (failure Audit.authentication_failed)
        actor none request.client_addr request.user_agent

  unfoldable pub refuse_with_validation_failed : Text → Option Text → Action S TokenResponse
  refuse_with_validation_failed reason actor =
      if is_empty reason
      then pure panicked
      else and_then (emit_audit app (refusal actor)) (λ _. pure (err (invalid_token reason)))

  -- The assertions on the detail and on the error hold by construction: a family id has 30 bytes.
  unfoldable pub revoke_family_for_reuse : Text → Text → Action S TokenResponse
  revoke_family_for_reuse family_id user_id =
      if not (is_valid_family_id family_id) || is_empty user_id
      then pure panicked
      else and_then (on_store (repo.revoke_family family_id)) (λ sessions_revoked.
        and_then
          (emit_security_event_with_detail app Audit.refresh_token_reuse success (some user_id) none
            request.client_addr request.user_agent
            ((codes "family_id", text family_id)
              ∷ (codes "sessions_revoked", number sessions_revoked)
              ∷ []))
          (λ _. pure (err (invalid_token unknown_refresh_token_reason))))

  unfoldable pub audit_successful_refresh : Text → Text → ℕ → Bool → Action S (Unit {0})
  audit_successful_refresh user_id family_id generation via_grace =
      if is_empty user_id || not (is_empty family_id || is_valid_family_id family_id)
      then pure panicked
      else emit_security_event_with_detail app (authentication_succeeded Audit.refresh) success
          (some user_id) none request.client_addr request.user_agent
          ((codes "family_id", text family_id)
            ∷ (codes "generation", number generation)
            ∷ (codes "grace", flag via_grace)
            ∷ [])

  -- The gates before any write: the deadline of the family, and the user.
  unfoldable pub user_gate :
      Session → Option User → (User → Action S TokenResponse) → Action S TokenResponse
  unfolding is_active
  user_gate session none serve =
      refuse_with_validation_failed missing_user_reason (some session.user_id)
  user_gate session (some user) serve =
      if is_active user.status
      then serve user
      else and_then
          (emit_security_event_with_detail app Audit.principal_suspended
            (failure Audit.principal_suspended) (some user.id) none request.client_addr
            request.user_agent [])
          (λ _. pure (err (user_suspended user.id)))

  unfoldable pub gated : Session → (User → Action S TokenResponse) → Action S TokenResponse
  gated session serve =
      if ltb session.expires_at draws.at_expiry
      then refuse_with_validation_failed expired_refresh_token_reason (some session.user_id)
      else and_then (pure (app.get_user_by_id session.user_id))
          (λ found. user_gate session found serve)

  -- Signing, the audit of the success, and the response.
  unfoldable pub respond : User → Session → Bool → Option Text → Action S TokenResponse
  respond user session via_grace refresh_token =
      and_then (pure (app.build_access_token user session.family_id)) (λ signed.
        and_then (audit_successful_refresh user.id session.family_id session.generation via_grace)
          (λ _. pure (
            ok (record {
              access_token = signed.0;
              refresh_token = refresh_token;
              token_type = codes "Bearer";
              expires_in = signed.1;
            }))))

  unfoldable pub rotate : Session → Bool → User → Action S TokenResponse
  rotate live' via_grace user = and_then (pure (mint_replacement draws live')) (λ minted.
      and_then
        (on_store (repo.rotate_refresh_token live'.refresh_token_hash minted.1 draws.at_swap))
        (λ won.
          if won
          then respond user minted.1 via_grace (some minted.0)
          else refuse_with_validation_failed unknown_refresh_token_reason (some user.id)))

  unfoldable pub rotate_and_respond : Session → Bool → Action S TokenResponse
  unfolding gated user_gate rotate respond
  rotate_and_respond live' via_grace =
      if is_empty live'.refresh_token_hash
      then pure panicked
      else gated live' (rotate live' via_grace)

  unfoldable pub refresh_without_rotation : RefreshResolution → Action S TokenResponse
  unfolding gated user_gate respond
  refresh_without_rotation (live session) =
      if is_empty session.refresh_token_hash
      then pure panicked
      else gated session (λ user. respond user session false none)
  refresh_without_rotation _ = refuse_with_validation_failed unknown_refresh_token_reason none

  unfoldable pub rotation_grace_secs : Result ℕ
  rotation_grace_secs =
      if ltb 0 app.refresh_rotation_grace
        && leb app.refresh_rotation_grace max_refresh_rotation_grace_secs
      then ok app.refresh_rotation_grace
      else panicked

  unfoldable pub refresh_with_rotation : RefreshResolution → Action S TokenResponse
  refresh_with_rotation unknown = refuse_with_validation_failed unknown_refresh_token_reason none
  refresh_with_rotation (live session) = rotate_and_respond session false
  refresh_with_rotation (superseded live' retired_at) =
      and_then (pure rotation_grace_secs) (λ grace_secs.
        if within_grace draws.at_grace retired_at grace_secs
        then rotate_and_respond live' true
        else revoke_family_for_reuse live'.family_id live'.user_id)
  refresh_with_rotation (retired family_id user_id _) = revoke_family_for_reuse family_id user_id

  unfoldable pub refresh : Action S TokenResponse
  refresh =
      let token_hash = draws.digest request.refresh_token in
      if is_empty request.refresh_token || not (length token_hash == refresh_hash_hex_len)
      then pure panicked
      else and_then (on_store (repo.resolve_refresh_token token_hash draws.at_resolve))
          (λ resolution.
            if app.refresh_rotation
            then refresh_with_rotation resolution
            else refresh_without_rotation resolution)
