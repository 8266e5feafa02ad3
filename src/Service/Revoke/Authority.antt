-- ===== src/Service/Revoke/Authority.antt =====
-- crates/core/src/service/revoke.rs: what a revocation may change, and what its caller can tell.
use oidc_exchange.Base.{
  ℕ, ◌≡◌, refl, sym, subst, ap, ◌∙◌, Bool, true, false, not, ◌||◌, Option, none, some, [], ◌∷◌,
  Text, length, ◌==◌, text_eq, is_empty, if◌then◌else◌, inl, inr, Bool-cases, arith,
}
use oidc_exchange.Error.{Result, ok, panicked, Result-cases}
use oidc_exchange.Domain.Session.{Session, is_valid_family_id, is_valid_family_id-empty}
use oidc_exchange.Token.{
  AccessTokenClaims, Codec, KeyManager, TokenConfig, Verdict, accepted, rejected, halted,
  validate_access_token,
}
use oidc_exchange.Token.Authentic.{Authentic, validate_access_token-Authentic}
use oidc_exchange.Token.Window.{check_claims-subject}
use oidc_exchange.Service.{
  SessionRepository, AppService, World, Action, pure, and_then, on_store, emit_security_event,
  emit_security_event_with_detail,
}
use oidc_exchange.Service.Flow.{
  if-false, if-true, Quiet, and_then-ok, and_then-err, and_then-panicked, emit_mandatory-Quiet,
  on_store-Quiet,
}
use oidc_exchange.Service.Revoke.{
  RevokeRequest, emit_revoke_rejection, revoke_claims, revoke_access_token, revoke_existing,
  revoke_refresh_token, revoke, names_access_token, token_hash_hex_len,
}

module _ {S : Type 0} (repo : SessionRepository S) (app : AppService) (codec : Codec)
    (keys : KeyManager) (config : TokenConfig) (request : RevokeRequest) (digest : Text → Text)
    (now_secs : ℕ) where
  abbrev hash : Text
  hash = digest request.token

  -- The stores that a revocation may leave: the one it met; the one after the revocation of the
  -- family that an authentic access token names; the one after the lookup of the presented token, and
  -- after the revocation of the session found there.
  pub data Authorised (s : S) : S → Type 0 where
    untouched : Authorised s s
    family :
        (claims : AccessTokenClaims)
        → Authentic codec keys config request.token claims now_secs
        → is_valid_family_id claims.sid ≡ true
        → Authorised s (repo.revoke_family claims.sid s).1
    looked_up : Authorised s (repo.get_session_by_refresh_token hash s).1
    session :
        (x : Session)
        → (repo.get_session_by_refresh_token hash s).0 ≡ ok (some x)
        → Authorised s (repo.revoke_session hash (repo.get_session_by_refresh_token hash s).1).1

  abbrev Keeps : Action S (Unit {0}) → World S → Type 0
  Keeps m w = Authorised w.store (m w).1.store

  Quiet-Keeps : (m : Action S (Unit {0})) (w : World S) → Quiet m → Keeps m w
  Quiet-Keeps m w q = subst (λ (s : S). Authorised w.store s) (sym (q w)) untouched

  if-Keeps :
      (b : Bool) (m n : Action S (Unit {0})) (w : World S)
      → Keeps m w
      → (b ≡ false → Keeps n w)
      → Keeps (if b then m else n) w
  if-Keeps true m n w p q = p
  if-Keeps false m n w p q = q refl

  panicked-Keeps : (w : World S) → Keeps (pure panicked) w
  unfolding pure
  panicked-Keeps w = untouched

  rejection-Quiet : Quiet (emit_revoke_rejection repo app codec keys config request)
  unfolding emit_revoke_rejection emit_security_event emit_security_event_with_detail
  rejection-Quiet = emit_mandatory-Quiet app _

  claims-Keeps :
      (claims : AccessTokenClaims) (w : World S)
      → Authentic codec keys config request.token claims now_secs
      → Keeps (revoke_claims repo app codec keys config request claims) w
  unfolding revoke_claims
  claims-Keeps claims w a = if-Keeps (is_empty claims.sid) _ _ w (panicked-Keeps w) (λ _.
      if-Keeps (not (is_valid_family_id claims.sid)) _ _ w
        (Quiet-Keeps (emit_revoke_rejection repo app codec keys config request) w rejection-Quiet)
        (λ valid. if-Keeps (is_empty claims.sub) _ _ w (panicked-Keeps w) (λ _.
          subst (λ (s : S). Authorised w.store s)
            (sym (on_store-Quiet _ _ (λ n. emit_mandatory-Quiet app _) w))
            (family claims a (ground (arith, valid))))))

  verdict-Keeps :
      (v : Verdict AccessTokenClaims) (w : World S)
      → validate_access_token codec keys config request.token now_secs ≡ v
      → Keeps
          (elim v [
            | accepted claims ↦ revoke_claims repo app codec keys config request claims
            | rejected _ ↦ emit_revoke_rejection repo app codec keys config request
            | halted ↦ pure panicked
          ])
          w
  verdict-Keeps (accepted claims) w e =
      claims-Keeps claims w
        (validate_access_token-Authentic codec keys config request.token claims now_secs e)
  verdict-Keeps (rejected _) w e =
      Quiet-Keeps (emit_revoke_rejection repo app codec keys config request) w rejection-Quiet
  verdict-Keeps halted w e = panicked-Keeps w

  existing-Keeps :
      (found : Option Session) (w : World S)
      → (repo.get_session_by_refresh_token hash w.store).0 ≡ ok found
      → Authorised w.store
          (revoke_existing repo app codec keys config request hash found
            (record w { store = (repo.get_session_by_refresh_token hash w.store).1 })).1.store
  unfolding revoke_existing emit_security_event emit_security_event_with_detail pure
  existing-Keeps none w e =
      subst (λ (s : S). Authorised w.store s) (sym (rejection-Quiet _)) looked_up
  existing-Keeps (some x) w e =
      elim (Bool-cases (is_empty x.user_id || not (text_eq x.refresh_token_hash hash))) [
        | inl b ↦ rw b looked_up
        | inr b ↦ rw b (
            subst (λ (s : S). Authorised w.store s)
              (sym (on_store-Quiet _ _ (λ _. emit_mandatory-Quiet app _) _)) (session x e))
      ]

  lookup-Keeps :
      (w : World S)
      → Keeps
          (and_then
            (on_store (repo.get_session_by_refresh_token hash))
            (revoke_existing repo app codec keys config request hash))
          w
  unfolding on_store
  lookup-Keeps w =
      let get = on_store (repo.get_session_by_refresh_token hash) in
      let k = revoke_existing repo app codec keys config request hash in
      let Case = λ (r : Result (Unit {0}) × World S). Authorised w.store r.1.store in
      elim (Result-cases (repo.get_session_by_refresh_token hash w.store).0)
        as (λ _. Case (and_then get k w)) [
          | inl (found, h) ↦
              subst Case (sym (and_then-ok get k w found h)) (existing-Keeps found w h)
          | inr (inl (x, h)) ↦ subst Case (sym (and_then-err get k w x h)) looked_up
          | inr (inr h) ↦ subst Case (sym (and_then-panicked get k w h)) looked_up
        ]

  -- A revocation changes no more of the store than its credential names: the family of an access
  -- token that passed every check of the validation, or the one session that the lookup of the
  -- presented refresh token found.
  pub revoke-Authorised :
      (w : World S)
      → Authorised w.store (revoke repo app codec keys config request digest now_secs w).1.store
  unfolding revoke revoke_access_token revoke_refresh_token
  revoke-Authorised w = if-Keeps (is_empty request.token) _ _ w (panicked-Keeps w) (λ _.
      if-Keeps (names_access_token request.token_type_hint) _ _ w
        (verdict-Keeps (validate_access_token codec keys config request.token now_secs) w refl)
        (λ _.
          if-Keeps (not (length hash == token_hash_hex_len)) _ _ w (panicked-Keeps w)
            (λ _. lookup-Keeps w)))

  valid-full : (id : Text) → is_valid_family_id id ≡ true → is_empty id ≡ false
  unfolding is_empty
  valid-full [] v = absurd (ground (arith, v, is_valid_family_id-empty))
  valid-full (c ∷ t) v = refl

  -- A validated access token of a well-formed family revokes the family, whatever the audit sink
  -- answers.
  pub revoke-access :
      (w : World S) (claims : AccessTokenClaims)
      → is_empty request.token ≡ false
      → names_access_token request.token_type_hint ≡ true
      → validate_access_token codec keys config request.token now_secs ≡ accepted claims
      → is_valid_family_id claims.sid ≡ true
      → (revoke repo app codec keys config request digest now_secs w).1.store
        ≡ (repo.revoke_family claims.sid w.store).1
  unfolding revoke revoke_access_token revoke_claims
  revoke-access w claims full hint e v =
      let a = validate_access_token-Authentic codec keys config request.token claims now_secs e in
      let subject = check_claims-subject codec claims a.payload_bytes config now_secs a.checked in
      ap (λ (m : Action S (Unit {0})). (m w).1.store)
        (if-false (is_empty request.token) _ _ full
          ∙ if-true (names_access_token request.token_type_hint) _ _ hint
          ∙ ap
              (λ (v : Verdict AccessTokenClaims). elim v as (λ _. Action S (Unit {0})) [
                | accepted c ↦ revoke_claims repo app codec keys config request c
                | rejected _ ↦ emit_revoke_rejection repo app codec keys config request
                | halted ↦ pure panicked
              ])
              e
          ∙ if-false (is_empty claims.sid) _ _ (valid-full claims.sid v)
          ∙ if-false (not (is_valid_family_id claims.sid)) _ _ (ground (arith, v))
          ∙ if-false (is_empty claims.sub) _ _ subject)
      ∙ on_store-Quiet _ _ (λ n. emit_mandatory-Quiet app _) w
