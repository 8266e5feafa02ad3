-- ===== src/Token/Lawful.antt =====
-- crates/core/src/service/mod.rs: what access tokens rely on of the base64 and serde_json crates and of
-- the key manager.
use oidc_exchange.Base.{◌≡◌, true, false, some, none, Text, get, Distinct, is_empty, inr}
use oidc_exchange.Error.{ok}
use oidc_exchange.Token.Claims.{is_reserved_claim}
use oidc_exchange.Token.Segments.{Segment}
use oidc_exchange.Token.{AccessTokenClaims, AccessTokenHeader, Codec, KeyManager}

-- No custom claim has a name of the typed claims or of `nbf`, and none stands twice.
pub record Flat (claims : AccessTokenClaims) : Type 0 where
  pub unreserved : (k : Text) → is_reserved_claim k ≡ true → get k claims.custom ≡ none
  pub distinct : Distinct claims.custom

-- base64 decodes what it encoded, to characters without a dot, and serde_json reads back what it
-- wrote. Claims without `nbf` are read without one.
pub record Lawful (codec : Codec) : Type 0 where
  pub decode-encode : (b : Text) → codec.decode (codec.encode b) ≡ some b
  pub encode-Segment : (b : Text) → is_empty b ≡ false → Segment (codec.encode b)
  pub header_read :
      (h : AccessTokenHeader) (b : Text)
      → codec.header_to_vec h ≡ inr b
      → (codec.header_from_slice b ≡ some h) × (is_empty b ≡ false)
  pub claims_read :
      (c : AccessTokenClaims) (b : Text)
      → codec.claims_to_vec c ≡ inr b
      → Flat c
      → (codec.claims_from_slice b ≡ some c)
        × (codec.not_before_from_slice b ≡ some none)
        × (is_empty b ≡ false)

-- The key manager verifies what it signed, and it is configured.
pub record LawfulKeys (keys : KeyManager) : Type 0 where
  pub verify-sign :
      (m s : Text) → keys.sign m ≡ ok s → (keys.verify m s ≡ ok true) × (is_empty s ≡ false)
  pub algorithm : is_empty keys.algorithm ≡ false
  pub key_id : is_empty keys.key_id ≡ false
