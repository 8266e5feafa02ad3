-- ===== src/Token.antt =====
-- crates/core/src/service/mod.rs and crates/core/src/domain/token.rs: access tokens, how they are
-- minted and how they are validated. The base64 and serde_json crates and the key manager are
-- parameters.
pub mod Claims
pub mod Duration
pub mod Segments
pub mod Window
pub mod Authentic
pub mod Lawful
pub mod Minted
use oidc_exchange.Base.{
  ℕ, ◌+◌, ◌%◌, ◌^◌, ◌-◌, Bool, true, false, ◌&&◌, ◌||◌, not, Option, none, some, List, [], ◌∷◌,
  ◌++◌, Text, codes, ltb, min, text_eq, is_empty, if◌then◌else◌, ◌⊎◌, inl, inr, split, is_blank,
}
use oidc_exchange.Error.{Result, ok, err, panicked, assert, config_error, ◌>>◌, ◌>>=◌}
use oidc_exchange.Domain.Audit.{Value}
use oidc_exchange.Domain.User.{User}
use oidc_exchange.Domain.Session.{is_valid_family_id}
use oidc_exchange.Token.Claims.{resolve_custom_claims}

pub record AccessTokenClaims : Type 0 where
  pub sub : Text
  pub iss : Text
  pub aud : Text
  pub sid : Text
  pub iat : ℕ  -- u64
  pub exp : ℕ  -- u64
  pub custom : List (Text × Value)

pub record AccessTokenHeader : Type 0 where
  pub alg : Text
  pub kid : Text
  pub typ : Text

-- base64 (URL-safe, no padding) and serde_json. A serialization fails with the text of its error.
pub record Codec : Type 0 where
  pub encode : Text → Text
  pub decode : Text → Option Text
  pub header_to_vec : AccessTokenHeader → Text ⊎ Text
  pub claims_to_vec : AccessTokenClaims → Text ⊎ Text
  pub header_from_slice : Text → Option AccessTokenHeader
  pub claims_from_slice : Text → Option AccessTokenClaims
  pub not_before_from_slice : Text → Option (Option ℕ)

-- The port `KeyManager`. It signs and verifies the bytes of a text.
pub record KeyManager : Type 0 where
  pub algorithm : Text
  pub key_id : Text
  pub sign : Text → Result Text
  pub verify : Text → Text → Result Bool

-- What the flows read of the configuration.
pub record TokenConfig : Type 0 where
  pub issuer : Text
  pub audience : Text
  pub access_token_ttl : ℕ  -- seconds
  pub custom_claims : Option (List (Text × Text))

abbrev pub access_token_typ : Text
access_token_typ = codes "at+jwt"

abbrev pub clock_skew_secs : ℕ
clock_skew_secs = 60

abbrev pub u64_max : ℕ
u64_max = 2 ^ 64 - 1

abbrev pub saturating_add : ℕ → ℕ → ℕ
saturating_add a b = min (a + b) u64_max

-- `Result<_, &'static str>`, and the panic of an assertion.
pub data Verdict {ℓ} (A : Type ℓ) : Type ℓ where
  accepted : A → Verdict A
  rejected : Text → Verdict A
  halted : Verdict A

-- `?`
unfoldable pub on_accepted : {A B : Type 0} → Verdict A → (A → Verdict B) → Verdict B
on_accepted (accepted a) f = f a
on_accepted (rejected r) f = rejected r
on_accepted halted f = halted

-- `ok_or`, `map_err`.
unfoldable pub or_rejected : {A : Type 0} → Text → Option A → Verdict A
or_rejected r none = rejected r
or_rejected r (some a) = accepted a

abbrev pub malformed : Text
malformed = codes "malformed access token"

abbrev pub bad_signature : Text
bad_signature = codes "invalid signature"

abbrev pub wrong_type : Text
wrong_type = codes "not an access token"

abbrev pub invalid_claims : Text
invalid_claims = codes "malformed access token claims"

unfoldable pub three_segments : List Text → Verdict (Text × Text × Text)
three_segments (header ∷ payload ∷ signature ∷ []) =
    if not (is_empty header) && not (is_empty payload) && not (is_empty signature)
    then accepted (header, payload, signature)
    else rejected malformed
three_segments _ = rejected malformed

-- The separator is the dot.
unfoldable pub split_jws_segments : Text → Verdict (Text × Text × Text)
split_jws_segments token = three_segments (split 46 token)

unfoldable pub pin_access_token_header : Codec → Text → Text → Text → Verdict (Unit {0})
pin_access_token_header codec header_bytes algorithm key_id =
    if is_empty algorithm || is_empty key_id
    then halted
    else on_accepted (or_rejected wrong_type (codec.header_from_slice header_bytes)) (λ header.
      if not (text_eq header.alg algorithm) || not (text_eq header.kid key_id)
      then rejected (codes "access token pinned to the wrong key")
      else if not (text_eq header.typ access_token_typ)
      then rejected wrong_type
      else accepted tt)

-- The checks after `nbf` is read.
unfoldable pub check_window : AccessTokenClaims → Option ℕ → ℕ → Verdict (Unit {0})
check_window claims nbf now_secs =
    if ltb (saturating_add claims.exp clock_skew_secs) now_secs
    then rejected (codes "token expired")
    else if ltb (saturating_add now_secs clock_skew_secs) claims.iat
    then rejected (codes "token issued in the future")
    else if elim nbf [ none ↦ false | some n ↦ ltb (saturating_add now_secs clock_skew_secs) n ]
    then rejected (codes "token not yet valid")
    else if is_blank claims.sub
    then rejected (codes "blank subject")
    else if is_blank claims.sid
    then rejected (codes "blank session identifier")
    else accepted tt

unfoldable pub check_claims :
    Codec → AccessTokenClaims → Text → TokenConfig → ℕ → Verdict (Unit {0})
check_claims codec claims payload_bytes config now_secs =
    if is_empty config.issuer
    then halted
    else if not (text_eq claims.iss config.issuer)
    then rejected (codes "invalid issuer")
    else if not (text_eq claims.aud config.audience)
    then rejected (codes "invalid audience")
    else on_accepted (or_rejected invalid_claims (codec.not_before_from_slice payload_bytes))
        (λ not_before. check_window claims not_before now_secs)

-- `map_err` and the test of the answer.
unfoldable pub signature_verdict : Result Bool → Verdict (Unit {0})
signature_verdict (ok true) = accepted tt
signature_verdict (ok false) = rejected bad_signature
signature_verdict (err _) = rejected bad_signature
signature_verdict panicked = halted

-- `map_err` of a serialization.
unfoldable pub or_config_error : Text → Text ⊎ Text → Result Text
or_config_error what (inl e) = err (config_error (what ++ e))
or_config_error what (inr bytes) = ok bytes

module _ (codec : Codec) (keys : KeyManager) (config : TokenConfig) where
  -- The claims of a signed payload, which is read only then.
  unfoldable pub read_claims : Text → ℕ → Verdict AccessTokenClaims
  read_claims payload_seg now_secs =
      on_accepted (or_rejected malformed (codec.decode payload_seg)) (λ payload_bytes.
        on_accepted (or_rejected invalid_claims (codec.claims_from_slice payload_bytes)) (λ claims.
          on_accepted (check_claims codec claims payload_bytes config now_secs)
            (λ _. if is_blank claims.sub || is_blank claims.sid then halted else accepted claims)))

  -- The key manager verifies the signature over the header and the payload as received.
  unfoldable pub verify_signature : Text → Text → Text → Verdict (Unit {0})
  verify_signature header_seg payload_seg signature_seg =
      on_accepted (or_rejected malformed (codec.decode header_seg)) (λ header_bytes.
        on_accepted (pin_access_token_header codec header_bytes keys.algorithm keys.key_id) (λ _.
          on_accepted (or_rejected malformed (codec.decode signature_seg)) (λ signature_bytes.
            signature_verdict (keys.verify (header_seg ++ 46 ∷ payload_seg) signature_bytes))))

  -- The clock is read once.
  unfoldable pub validate_access_token : Text → ℕ → Verdict AccessTokenClaims
  validate_access_token token now_secs =
      on_accepted (split_jws_segments token)
        (λ s. on_accepted (verify_signature s.0 s.1 s.2) (λ _. read_claims s.1 now_secs))

  abbrev pub minted_claims : User → Text → ℕ → AccessTokenClaims
  minted_claims user family_id now_secs = record {
    sub = user.id;
    iss = config.issuer;
    aud = config.audience;
    sid = family_id;
    iat = now_secs;
    exp = (now_secs + config.access_token_ttl) % 2 ^ 64;
    custom = resolve_custom_claims config.custom_claims user;
  }

  abbrev pub minted_header : AccessTokenHeader
  minted_header = record { alg = keys.algorithm; kid = keys.key_id; typ = access_token_typ }

  unfoldable pub build_access_token : User → Text → ℕ → Result (Text × ℕ)
  build_access_token user family_id now_secs = do
    assert (is_empty family_id || is_valid_family_id family_id)
    assert (not (is_empty user.id))
    claims_json ←
        or_config_error (codes "failed to serialize access token claims: ")
          (codec.claims_to_vec (minted_claims user family_id now_secs))
    header_json ←
        or_config_error (codes "failed to serialize JWT header: ")
          (codec.header_to_vec minted_header)
    let signing_input = codec.encode header_json ++ 46 ∷ codec.encode claims_json
    signature ← keys.sign signing_input
    ok (signing_input ++ 46 ∷ codec.encode signature, config.access_token_ttl)
