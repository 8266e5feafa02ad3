-- ===== src/Service/Revoke.antt =====
-- crates/core/src/service/revoke.rs: the revocation of access and refresh tokens (RFC 7009).
pub mod Terminal
pub mod Authority
pub mod Hidden
use oidc_exchange.Base.{
  ℕ, Bool, true, false, not, ◌&&◌, ◌||◌, Option, none, some, [], ◌∷◌, Text, codes, length, ◌==◌,
  text_eq, is_empty, if◌then◌else◌,
}
use oidc_exchange.Error.{Result, ok, err, panicked}
use oidc_exchange.Domain.Session.{Session, is_valid_family_id}
use oidc_exchange.Domain.Audit
use oidc_exchange.Domain.Audit.{
  AuditEvent, ClientAddr, text, number, success, failure, into_audit_event,
}
use oidc_exchange.Token.{
  AccessTokenClaims, Codec, KeyManager, TokenConfig, Verdict, accepted, rejected, halted,
  validate_access_token,
}
use oidc_exchange.Service.{
  SessionRepository, AppService, Action, pure, and_then, on_store, emit_mandatory_audit_event,
  emit_security_event,
}

abbrev pub token_hash_hex_len : ℕ
token_hash_hex_len = 64

pub record RevokeRequest : Type 0 where
  pub token : Text
  pub token_type_hint : Option Text
  pub client_addr : ClientAddr
  pub user_agent : Option Text
  pub device_id : Option Text

-- The audit records of a revocation: a revoked family, a revoked session, a rejected credential.
abbrev pub family_revoked : RevokeRequest → Text → Text → ℕ → AuditEvent
family_revoked request user_id family_id sessions_revoked =
    record (into_audit_event Audit.SecurityEvent.session_revoked success (some user_id) none
      request.client_addr request.user_agent) {
        detail =
            (codes "family_id", text family_id)
            ∷ (codes "sessions_revoked", number sessions_revoked)
            ∷ [];
      }

-- The hint that is not taken for a refresh token.
unfoldable pub names_access_token : Option Text → Bool
names_access_token none = false
names_access_token (some hint) = text_eq hint (codes "access_token")

module _ {S : Type 0} (repo : SessionRepository S) (app : AppService) (codec : Codec)
    (keys : KeyManager) (config : TokenConfig) (request : RevokeRequest) where
  unfoldable pub emit_revoke_rejection : Action S (Unit {0})
  emit_revoke_rejection =
      emit_security_event app Audit.authentication_failed (failure Audit.authentication_failed) none
        none request.client_addr request.user_agent

  -- A validated token, whose session is a family or not.
  unfoldable pub revoke_claims : AccessTokenClaims → Action S (Unit {0})
  revoke_claims claims =
      if is_empty claims.sid
      then pure panicked
      else if not (is_valid_family_id claims.sid)
      then emit_revoke_rejection
      else if is_empty claims.sub
      then pure panicked
      else and_then (on_store (repo.revoke_family claims.sid)) (λ sessions_revoked.
        emit_mandatory_audit_event app
          (family_revoked request claims.sub claims.sid sessions_revoked))

  -- The clock of the validation.
  unfoldable pub revoke_access_token : ℕ → Action S (Unit {0})
  revoke_access_token now_secs =
      elim (validate_access_token codec keys config request.token now_secs) [
        | accepted claims ↦ revoke_claims claims
        | rejected _ ↦ emit_revoke_rejection
        | halted ↦ pure panicked
      ]

  unfoldable pub revoke_existing : Text → Option Session → Action S (Unit {0})
  revoke_existing token_hash none = emit_revoke_rejection
  revoke_existing token_hash (some session) =
      if is_empty session.user_id || not (text_eq session.refresh_token_hash token_hash)
      then pure panicked
      else and_then (on_store (repo.revoke_session token_hash)) (λ _.
        emit_security_event app Audit.SecurityEvent.session_revoked success (some session.user_id)
          none request.client_addr request.user_agent)

  -- `digest` is the hexadecimal SHA-256 digest.
  unfoldable pub revoke_refresh_token : (Text → Text) → Action S (Unit {0})
  revoke_refresh_token digest =
      let token_hash = digest request.token in
      if not (length token_hash == token_hash_hex_len)
      then pure panicked
      else and_then (on_store (repo.get_session_by_refresh_token token_hash))
          (revoke_existing token_hash)

  unfoldable pub revoke : (Text → Text) → ℕ → Action S (Unit {0})
  unfolding names_access_token
  revoke digest now_secs =
      if is_empty request.token
      then pure panicked
      else if names_access_token request.token_type_hint
      then revoke_access_token now_secs
      else revoke_refresh_token digest
