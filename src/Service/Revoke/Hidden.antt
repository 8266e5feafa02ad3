-- ===== src/Service/Revoke/Hidden.antt =====
-- crates/core/src/service/revoke.rs: what the presenter of a refresh token can tell.
use oidc_exchange.Base.{
  ℕ, ◌≡◌, sym, ap, ◌∙◌, true, false, not, ◌||◌, Option, none, some, Text, length, ◌==◌, text_eq,
  is_empty, Option-cases, arith,
}
use oidc_exchange.Error.{ok}
use oidc_exchange.Domain.Session.{Session}
use oidc_exchange.Domain.Audit.{AuditEvent}
use oidc_exchange.Token.{Codec, KeyManager, TokenConfig}
use oidc_exchange.Service.{
  SessionRepository, AppService, World, Action, and_then, on_store, emit_mandatory_audit_event,
  emit_security_event, emit_security_event_with_detail,
}
use oidc_exchange.Service.Flow.{if-false, and_then-ok}
use oidc_exchange.Service.Revoke.{
  RevokeRequest, emit_revoke_rejection, revoke_existing, revoke_refresh_token, revoke,
  names_access_token, token_hash_hex_len,
}
use oidc_exchange.Service.Revoke.Terminal.{durable}

module _ {S : Type 0} (repo : SessionRepository S) (app : AppService) (codec : Codec)
    (keys : KeyManager) (config : TokenConfig) (request : RevokeRequest) (digest : Text → Text)
    (now_secs : ℕ) where
  abbrev hash : Text
  hash = digest request.token

  -- The request passes the assertions and presents its token as a refresh token.
  pub record Presented : Type 0 where
    pub full : is_empty request.token ≡ false
    pub refresh_hint : names_access_token request.token_type_hint ≡ false
    pub digested : (length hash == token_hash_hex_len) ≡ true

  -- The store knows the token, and revokes its session.
  pub record Known (w : World S) : Type 0 where
    pub row : Session
    pub found : (repo.get_session_by_refresh_token hash w.store).0 ≡ ok (some row)
    pub owner : is_empty row.user_id ≡ false
    pub own_row : text_eq row.refresh_token_hash hash ≡ true
    pub revoked :
        (repo.revoke_session hash (repo.get_session_by_refresh_token hash w.store).1).0 ≡ ok tt

  emit_mandatory-durable :
      (e : AuditEvent) (w : World S) → (emit_mandatory_audit_event app e w).0 ≡ durable app e
  unfolding emit_mandatory_audit_event
  emit_mandatory-durable e w = ground (arith, Option-cases (app.emit e))

  presented-run :
      Presented
      → revoke repo app codec keys config request digest now_secs
        ≡ and_then
            (on_store (repo.get_session_by_refresh_token hash))
            (revoke_existing repo app codec keys config request hash)
  unfolding revoke revoke_refresh_token
  presented-run p =
      if-false (is_empty request.token) _ _ p.full
      ∙ if-false (names_access_token request.token_type_hint) _ _ p.refresh_hint
      ∙ if-false (not (length hash == token_hash_hex_len)) _ _ (ground (arith, p.digested))

  answer :
      (w : World S) (found : Option Session)
      → Presented
      → (repo.get_session_by_refresh_token hash w.store).0 ≡ ok found
      → revoke repo app codec keys config request digest now_secs w
        ≡ revoke_existing repo app codec keys config request hash found
            (record w { store = (repo.get_session_by_refresh_token hash w.store).1 })
  unfolding on_store
  answer w found p h =
      ap (λ (m : Action S (Unit {0})). m w) (presented-run p)
      ∙ and_then-ok (on_store (repo.get_session_by_refresh_token hash))
          (revoke_existing repo app codec keys config request hash) w found h

  missed-answer :
      (w : World S)
      → Presented
      → (repo.get_session_by_refresh_token hash w.store).0 ≡ ok none
      → (e : AuditEvent) × ((revoke repo app codec keys config request digest now_secs w).0
          ≡ durable app e)
  unfolding revoke_existing emit_revoke_rejection emit_security_event
      emit_security_event_with_detail
  missed-answer w p h = (_, ap (λ r. r.0) (answer w none p h) ∙ emit_mandatory-durable _ _)

  Known-answer :
      (w : World S)
      → Presented
      → Known w
      → (e : AuditEvent) × ((revoke repo app codec keys config request digest now_secs w).0
          ≡ durable app e)
  unfolding revoke_existing emit_security_event emit_security_event_with_detail on_store
  Known-answer w p k =
      let w' = record w { store = (repo.get_session_by_refresh_token hash w.store).1 } in
      (
        _,
        ap (λ r. r.0)
              (answer w (some k.row) p k.found
                ∙ ap (λ (m : Action S (Unit {0})). m w')
                    (if-false
                      (is_empty k.row.user_id || not (text_eq k.row.refresh_token_hash hash)) _ _
                      (ground (arith, k.owner, k.own_row)))
                ∙ and_then-ok (on_store (repo.revoke_session hash)) _ w' tt k.revoked)
            ∙ emit_mandatory-durable _ _,
      )

  -- The presenter of a refresh token cannot tell whether the store knew it: a token that is found and
  -- revoked is answered as one that is not found, with the sink up or down, under either policy, where
  -- the sink answers all events alike.
  pub revoke-hidden :
      (w w' : World S)
      → Presented
      → Known w
      → (repo.get_session_by_refresh_token hash w'.store).0 ≡ ok none
      → ((e e' : AuditEvent) → app.emit e ≡ app.emit e')
      → (revoke repo app codec keys config request digest now_secs w).0
        ≡ (revoke repo app codec keys config request digest now_secs w').0
  revoke-hidden w w' p k n same =
      let (e, a) = Known-answer w p k in
      let (e', b) = missed-answer w' p n in a ∙ ground (arith, same e e') ∙ sym b
