-- ===== src/Token/Authentic.antt =====
-- crates/core/src/service/mod.rs: what an accepted access token has passed.
use oidc_exchange.Base.{
  ℕ, ◌≡◌, refl, ap, ◌∙◌, Bool, true, false, ◌||◌, Option, none, some, Text, ◌∷◌, ◌++◌, text_eq_iff,
  is_blank, if◌then◌else◌, arith, Option-cases, inl, inr, subst,
}
use oidc_exchange.Error.{Result, ok, err, panicked}
use oidc_exchange.Token.{
  AccessTokenClaims, AccessTokenHeader, Codec, KeyManager, TokenConfig, Verdict, accepted, rejected,
  halted, on_accepted, or_rejected, pin_access_token_header, check_claims, signature_verdict,
  read_claims, verify_signature, validate_access_token, access_token_typ,
}
use oidc_exchange.Token.Segments.{compact, split_jws_segments_iff}

module _ {A B : Type 0} where
  -- Where a chain is accepted, so is its first step, and the rest after it.
  pub on_accepted-accepted :
      (m : Verdict A) (f : A → Verdict B) (b : B)
      → on_accepted m f ≡ accepted b
      → (a : A) × (m ≡ accepted a) × (f a ≡ accepted b)
  unfolding on_accepted
  on_accepted-accepted (accepted a) f b e = (a, refl, e)
  on_accepted-accepted (rejected r) f b e = cc
  on_accepted-accepted halted f b e = cc

or_rejected-accepted :
    {A : Type 0} (r : Text) (o : Option A) (a : A) → or_rejected r o ≡ accepted a → o ≡ some a
unfolding or_rejected
or_rejected-accepted r none a e = cc
or_rejected-accepted r (some b) a e = ground (arith, e)

signature_verdict-accepted : (v : Result Bool) → signature_verdict v ≡ accepted tt → v ≡ ok true
unfolding signature_verdict
signature_verdict-accepted (ok true) e = refl
signature_verdict-accepted (ok false) e = cc
signature_verdict-accepted (err _) e = cc
signature_verdict-accepted panicked e = cc

-- The header names the algorithm and the key of the key manager, and the type of an access token.
pub record Pinned (keys : KeyManager) (header : AccessTokenHeader) : Type 0 where
  pub alg : header.alg ≡ keys.algorithm
  pub kid : header.kid ≡ keys.key_id
  pub typ : header.typ ≡ access_token_typ

module _ (codec : Codec) (keys : KeyManager) (config : TokenConfig) where
  -- The token is three segments; the header is pinned; the key manager verified the signature over
  -- the first two as they stand; the claims are those of the second, and pass their checks.
  pub record Authentic (token : Text) (claims : AccessTokenClaims) (now_secs : ℕ) : Type 0 where
    pub header_seg : Text
    pub payload_seg : Text
    pub signature_seg : Text
    pub header_bytes : Text
    pub header : AccessTokenHeader
    pub signature_bytes : Text
    pub payload_bytes : Text
    pub shape : token ≡ compact header_seg payload_seg signature_seg
    pub header_decoded : codec.decode header_seg ≡ some header_bytes
    pub header_read : codec.header_from_slice header_bytes ≡ some header
    pub pinned : Pinned keys header
    pub signature_decoded : codec.decode signature_seg ≡ some signature_bytes
    pub verified : keys.verify (header_seg ++ 46 ∷ payload_seg) signature_bytes ≡ ok true
    pub payload_decoded : codec.decode payload_seg ≡ some payload_bytes
    pub claims_read : codec.claims_from_slice payload_bytes ≡ some claims
    pub checked : check_claims codec claims payload_bytes config now_secs ≡ accepted tt

  pin-accepted :
      (bytes : Text)
      → pin_access_token_header codec bytes keys.algorithm keys.key_id ≡ accepted tt
      → (header : AccessTokenHeader) × (codec.header_from_slice bytes ≡ some header)
        × Pinned keys header
  unfolding pin_access_token_header on_accepted or_rejected
  pin-accepted bytes e = elim (Option-cases (codec.header_from_slice bytes)) [
    | inl n ↦ absurd (ground (arith, e, n))
    | inr (h, r) ↦ (
      h,
      r,
      record {
        alg = ground (arith, e, r, text_eq_iff h.alg keys.algorithm);
        kid = ground (arith, e, r, text_eq_iff h.kid keys.key_id);
        typ = ground (arith, e, r, text_eq_iff h.typ access_token_typ);
      },
    )
  ]

  last-accepted :
      (claims c : AccessTokenClaims)
      → (if is_blank c.sub || is_blank c.sid then halted else accepted c) ≡ accepted claims
      → c ≡ claims
  last-accepted claims c e = ground (arith, e)

  -- Every accepted token is authentic: no claim comes out of a token of another shape, with a header
  -- that is not pinned, with a signature that the key manager did not verify, or with claims that do
  -- not pass their checks.
  pub validate_access_token-Authentic :
      (token : Text) (claims : AccessTokenClaims) (now_secs : ℕ)
      → validate_access_token codec keys config token now_secs ≡ accepted claims
      → Authentic token claims now_secs
  unfolding validate_access_token verify_signature read_claims
  validate_access_token-Authentic token claims now_secs e =
      let (s, split, e1) = on_accepted-accepted _ _ claims e in
      let (_, signed, e2) = on_accepted-accepted _ _ claims e1 in
      let (hb, h1, e3) = on_accepted-accepted _ _ tt signed in
      let (_, pin, e4) = on_accepted-accepted _ _ tt e3 in
      let (sb, h2, e5) = on_accepted-accepted _ _ tt e4 in
      let (pb, h3, e6) = on_accepted-accepted _ _ claims e2 in
      let (c, h4, e7) = on_accepted-accepted _ _ claims e6 in
      let (_, checks, e8) = on_accepted-accepted _ _ claims e7 in
      let (header, read, pinned) = pin-accepted hb pin in
      let same = last-accepted claims c e8 in
      record {
        header_seg = s.0;
        payload_seg = s.1;
        signature_seg = s.2;
        header_bytes = hb;
        header = header;
        signature_bytes = sb;
        payload_bytes = pb;
        shape = ((split_jws_segments_iff token s.0 s.1 s.2).0 split).0;
        header_decoded = or_rejected-accepted _ _ hb h1;
        header_read = read;
        pinned = pinned;
        signature_decoded = or_rejected-accepted _ _ sb h2;
        verified = signature_verdict-accepted _ e5;
        payload_decoded = or_rejected-accepted _ _ pb h3;
        claims_read = or_rejected-accepted _ _ c h4 ∙ ap some same;
        checked =
            subst (λ (x : AccessTokenClaims). check_claims codec x pb config now_secs ≡ accepted tt)
              same checks;
      }
