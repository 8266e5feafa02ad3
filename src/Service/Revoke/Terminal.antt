-- ===== src/Service/Revoke/Terminal.antt =====
-- crates/core/src/service/revoke.rs: how a revocation ends.
use oidc_exchange.Base.{
  ℕ, List, ◌≡◌, ◌≢◌, refl, sym, subst, Bool, true, false, not, ◌||◌, Option, none, some, ◌∷◌, Text,
  length, ◌==◌, text_eq, is_empty, if◌then◌else◌, inl, inr, Option-cases, arith,
}
use oidc_exchange.Error.{Result, ok, err, panicked, Result-cases, security_audit_durability}
use oidc_exchange.Domain.Session.{Session, is_valid_family_id}
use oidc_exchange.Domain.Audit.{AuditEvent}
use oidc_exchange.Token.{
  AccessTokenClaims, Codec, KeyManager, TokenConfig, Verdict, accepted, rejected, halted,
  validate_access_token,
}
use oidc_exchange.Service.{
  SessionRepository, AppService, World, Action, pure, and_then, on_store,
  emit_mandatory_audit_event, emit_security_event, emit_security_event_with_detail,
}
use oidc_exchange.Service.Flow.{and_then-ok, and_then-err, and_then-panicked}
use oidc_exchange.Service.Revoke.{
  RevokeRequest, emit_revoke_rejection, revoke_claims, revoke_access_token, revoke_existing,
  revoke_refresh_token, revoke, names_access_token,
}

-- What the durability policy makes of the sink's answer to a mandatory event.
abbrev pub durable : AppService → AuditEvent → Result (Unit {0})
durable app e = elim (app.emit e) [
  | none ↦ ok tt
  | some x ↦ if app.is_enforce then err (security_audit_durability (app.to_string x)) else ok tt
]

-- The flow hands one event to the sink and answers by the policy, or hands none and fails.
pub data Ended (app : AppService) (before : List AuditEvent) (a : Result (Unit {0}))
    (after : List AuditEvent) : Type 0 where
  recorded : (e : AuditEvent) → after ≡ e ∷ before → a ≡ durable app e → Ended app before a after
  failed : after ≡ before → a ≢ ok tt → Ended app before a after

module _ {S : Type 0} (app : AppService) where
  abbrev Ends : Action S (Unit {0}) → Type 0
  Ends m = (w : World S) → Ended app w.events (m w).0 (m w).1.events

  emit_mandatory-Ends : (e : AuditEvent) → Ends (emit_mandatory_audit_event app e)
  unfolding emit_mandatory_audit_event
  emit_mandatory-Ends e w = elim (Option-cases (app.emit e)) [
    | inl h ↦ recorded e (ground (arith, h)) (ground (arith, h))
    | inr (x, h) ↦ recorded e (ground (arith, h)) (ground (arith, h))
  ]

  panicked-Ends : Ends (pure panicked)
  unfolding pure
  panicked-Ends w = failed refl (λ e. cc)

  if-Ends : (b : Bool) (m n : Action S (Unit {0})) → Ends m → Ends n → Ends (if b then m else n)
  if-Ends true m n p q = p
  if-Ends false m n p q = q

  -- A call of the repository hands no event to the sink.
  on_store-Ends :
      {A : Type 0} (f : S → Result A × S) (k : A → Action S (Unit {0}))
      → ((a : A) → Ends (k a))
      → Ends (and_then (on_store f) k)
  unfolding on_store
  on_store-Ends f k q w =
      let Case = λ (r : Result (Unit {0}) × World S). Ended app w.events r.0 r.1.events in
      elim (Result-cases (f w.store).0) as (λ _. Case (and_then (on_store f) k w)) [
        | inl (a, h) ↦
            subst Case (sym (and_then-ok (on_store f) k w a h))
              (q a (record w { store = (f w.store).1 }))
        | inr (inl (x, h)) ↦
            subst Case (sym (and_then-err (on_store f) k w x h)) (failed refl (λ e. cc))
        | inr (inr h) ↦
            subst Case (sym (and_then-panicked (on_store f) k w h)) (failed refl (λ e. cc))
      ]

module _ {S : Type 0} (repo : SessionRepository S) (app : AppService) (codec : Codec)
    (keys : KeyManager) (config : TokenConfig) (request : RevokeRequest) where
  rejection-Ends : Ends app (emit_revoke_rejection repo app codec keys config request)
  unfolding emit_revoke_rejection emit_security_event emit_security_event_with_detail
  rejection-Ends = emit_mandatory-Ends app _

  claims-Ends :
      (claims : AccessTokenClaims)
      → Ends app (revoke_claims repo app codec keys config request claims)
  unfolding revoke_claims
  claims-Ends claims = if-Ends app (is_empty claims.sid) _ _ (panicked-Ends app) (
      if-Ends app (not (is_valid_family_id claims.sid)) _ _ rejection-Ends (
        if-Ends app (is_empty claims.sub) _ _ (panicked-Ends app)
          (on_store-Ends app _ _ (λ n. emit_mandatory-Ends app _))))

  verdict-Ends :
      (v : Verdict AccessTokenClaims)
      → Ends app (elim v [
        | accepted claims ↦ revoke_claims repo app codec keys config request claims
        | rejected _ ↦ emit_revoke_rejection repo app codec keys config request
        | halted ↦ pure panicked
      ])
  verdict-Ends (accepted claims) = claims-Ends claims
  verdict-Ends (rejected _) = rejection-Ends
  verdict-Ends halted = panicked-Ends app

  existing-Ends :
      (token_hash : Text) (found : Option Session)
      → Ends app (revoke_existing repo app codec keys config request token_hash found)
  unfolding revoke_existing emit_security_event emit_security_event_with_detail
  existing-Ends token_hash none = rejection-Ends
  existing-Ends token_hash (some session) =
      if-Ends app (is_empty session.user_id || not (text_eq session.refresh_token_hash token_hash))
        _ _ (panicked-Ends app) (on_store-Ends app _ _ (λ _. emit_mandatory-Ends app _))

  -- Every revocation, of a known or an unknown token of either kind, hands exactly one event to the
  -- sink and answers by the durability policy alone; or it hands none, and then it does not report
  -- success.
  pub revoke-Ended :
      (digest : Text → Text) (now_secs : ℕ) (w : World S)
      → Ended app w.events
          (revoke repo app codec keys config request digest now_secs w).0
          (revoke repo app codec keys config request digest now_secs w).1.events
  unfolding revoke revoke_access_token revoke_refresh_token
  revoke-Ended digest now_secs = if-Ends app (is_empty request.token) _ _ (panicked-Ends app) (
      if-Ends app (names_access_token request.token_type_hint) _ _
        (verdict-Ends (validate_access_token codec keys config request.token now_secs))
        (if-Ends app (not (length (digest request.token) == 64)) _ _ (panicked-Ends app)
          (on_store-Ends app _ _ (existing-Ends (digest request.token)))))
