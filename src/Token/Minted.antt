-- ===== src/Token/Minted.antt =====
-- crates/core/src/service/mod.rs: a minted access token validates.
use oidc_exchange.Base.{
  ℕ, ◌+◌, ◌^◌, ◌≤◌, ◌<◌, ◌≡◌, refl, ap, ◌∙◌, true, false, not, ◌||◌, none, Text, codes, [], ◌∷◌,
  ◌++◌, is_empty, is_blank, text_eq_refl, ◌⊎◌, inl, inr, Option-cases, arith, is_whitespace,
  strip_prefix, strip_prefix-some,
}
use oidc_exchange.Error.{ok, assert, >>=-ok}
use oidc_exchange.Domain.User.{User}
use oidc_exchange.Domain.Session.{is_valid_family_id, family_id_prefix}
use oidc_exchange.Token.Claims.Reserved.{
  resolve_custom_claims-unreserved, Distinct-resolve_custom_claims,
}
use oidc_exchange.Token.Lawful.{Flat, Lawful, LawfulKeys}
use oidc_exchange.Token.Segments.{compact, split-compact}
use oidc_exchange.Token.Window.{Valid, InU64, check_claims_iff}
use oidc_exchange.Token.{
  Codec, KeyManager, TokenConfig, Verdict, accepted, on_accepted, or_rejected,
  pin_access_token_header, signature_verdict, read_claims, verify_signature, validate_access_token,
  split_jws_segments, access_token_typ, minted_claims, minted_header, or_config_error,
  build_access_token, clock_skew_secs,
}

is_blank-family : (r : Text) → is_blank (family_id_prefix ++ r) ≡ false
unfolding is_blank is_empty is_whitespace
is_blank-family r = refl

is_valid_family_id-blank : (id : Text) → is_valid_family_id id ≡ true → is_blank id ≡ false
unfolding is_valid_family_id
is_valid_family_id-blank id h = elim (Option-cases (strip_prefix family_id_prefix id)) [
  | inl e ↦ absurd (ground (arith, e, h))
  | inr (r, e) ↦ rw (strip_prefix-some family_id_prefix id r e) (is_blank-family r)
]

or_config_error-ok :
    (what : Text) (r : Text ⊎ Text) (b : Text) → or_config_error what r ≡ ok b → r ≡ inr b
unfolding or_config_error
or_config_error-ok what (inl x) b e = cc
or_config_error-ok what (inr c) b e = ground (arith, e)

module _ (codec : Codec) (keys : KeyManager) (config : TokenConfig) where
  abbrev input : Text → Text → Text
  input hb pb = codec.encode hb ++ 46 ∷ codec.encode pb

  -- What went into a token that was built.
  record Built (user : User) (family_id : Text) (now_secs : ℕ) (token : Text) : Type 0 where
    header_bytes : Text
    payload_bytes : Text
    signature : Text
    header : codec.header_to_vec (minted_header codec keys config) ≡ inr header_bytes
    payload :
        codec.claims_to_vec (minted_claims codec keys config user family_id now_secs)
        ≡ inr payload_bytes
    signed : keys.sign (input header_bytes payload_bytes) ≡ ok signature
    shape : token ≡ input header_bytes payload_bytes ++ 46 ∷ codec.encode signature

  build-Built :
      (user : User) (family_id : Text) (now_secs : ℕ) (token : Text) (ttl : ℕ)
      → build_access_token codec keys config user family_id now_secs ≡ ok (token, ttl)
      → Built user family_id now_secs token
  unfolding build_access_token
  build-Built user family_id now_secs token ttl e =
      let (_, _, e1) =
        >>=-ok (assert (is_empty family_id || is_valid_family_id family_id)) _ (token, ttl) e in
      let (_, _, e2) = >>=-ok (assert (not (is_empty user.id))) _ (token, ttl) e1 in
      let (pb, p, e3) =
        >>=-ok
          (or_config_error (codes "failed to serialize access token claims: ")
            (codec.claims_to_vec (minted_claims codec keys config user family_id now_secs)))
          _ (token, ttl) e2 in
      let (hb, h, e4) =
        >>=-ok
          (or_config_error (codes "failed to serialize JWT header: ")
            (codec.header_to_vec (minted_header codec keys config)))
          _ (token, ttl) e3 in
      let (s, signed, e5) = >>=-ok (keys.sign (input hb pb)) _ (token, ttl) e4 in
      record {
        header_bytes = hb;
        payload_bytes = pb;
        signature = s;
        header = or_config_error-ok _ _ hb h;
        payload = or_config_error-ok _ _ pb p;
        signed = signed;
        shape = ground (arith, e5);
      }

  on_accepted-step :
      {A B : Type 0} (m : Verdict A) (f : A → Verdict B) (a : A)
      → m ≡ accepted a
      → on_accepted m f ≡ f a
  unfolding on_accepted
  on_accepted-step m f a e = rw e refl

  decoded-step :
      {B : Type 0} (r b : Text) (f : Text → Verdict B)
      → Lawful codec
      → on_accepted (or_rejected r (codec.decode (codec.encode b))) f ≡ f b
  unfolding on_accepted or_rejected
  decoded-step r b f laws = rw (laws.decode-encode b) refl

  pin-minted :
      (hb : Text)
      → Lawful codec
      → LawfulKeys keys
      → codec.header_to_vec (minted_header codec keys config) ≡ inr hb
      → pin_access_token_header codec hb keys.algorithm keys.key_id ≡ accepted tt
  unfolding pin_access_token_header on_accepted or_rejected
  pin-minted hb laws ks e = ground (
    arith,
    (laws.header_read (minted_header codec keys config) hb e).0,
    ks.algorithm,
    ks.key_id,
    text_eq_refl keys.algorithm,
    text_eq_refl keys.key_id,
    text_eq_refl access_token_typ,
  )

  verify_signature-minted :
      (hb pb s : Text)
      → Lawful codec
      → LawfulKeys keys
      → codec.header_to_vec (minted_header codec keys config) ≡ inr hb
      → keys.sign (input hb pb) ≡ ok s
      → verify_signature codec keys config (codec.encode hb) (codec.encode pb) (codec.encode s)
        ≡ accepted tt
  unfolding verify_signature signature_verdict
  verify_signature-minted hb pb s laws ks h e =
      decoded-step _ hb _ laws
      ∙ on_accepted-step _ _ tt (pin-minted hb laws ks h)
      ∙ decoded-step _ s _ laws
      ∙ ap signature_verdict (ks.verify-sign _ s e).0

  minted-Flat :
      (user : User) (family_id : Text) (now_secs : ℕ)
      → Flat (minted_claims codec keys config user family_id now_secs)
  minted-Flat user family_id now_secs = record {
    unreserved = resolve_custom_claims-unreserved config.custom_claims user;
    distinct = Distinct-resolve_custom_claims config.custom_claims user;
  }

  -- A token is looked at between its date of issue and its deadline, give or take the skew, and the
  -- deadline fits `u64`.
  pub record InTime (now_secs later : ℕ) : Type 0 where
    pub after : now_secs ≤ later + clock_skew_secs
    pub before : later ≤ now_secs + config.access_token_ttl + clock_skew_secs
    pub deadline_fits : now_secs + config.access_token_ttl < 2 ^ 64
    pub later_fits : later < 2 ^ 64

  minted-Valid :
      (user : User) (family_id : Text) (now_secs later : ℕ)
      → is_valid_family_id family_id ≡ true
      → is_blank user.id ≡ false
      → InTime now_secs later
      → Valid (minted_claims codec keys config user family_id now_secs) none later
  minted-Valid user family_id now_secs later v n t = record {
    not_expired = ground (arith, t.before, t.deadline_fits);
    issued = t.after;
    begun = tt;
    subject = n;
    session = is_valid_family_id-blank family_id v;
  }

  read_claims-minted :
      (user : User) (family_id : Text) (now_secs later : ℕ) (pb : Text)
      → Lawful codec
      → codec.claims_to_vec (minted_claims codec keys config user family_id now_secs) ≡ inr pb
      → is_empty config.issuer ≡ false
      → is_valid_family_id family_id ≡ true
      → is_blank user.id ≡ false
      → InTime now_secs later
      → read_claims codec keys config (codec.encode pb) later
        ≡ accepted (minted_claims codec keys config user family_id now_secs)
  unfolding read_claims or_rejected
  read_claims-minted user family_id now_secs later pb laws p full v n t =
      let claims = minted_claims codec keys config user family_id now_secs in
      let (read, nbf, _) = laws.claims_read claims pb p (minted-Flat user family_id now_secs) in
      let open_window = minted-Valid user family_id now_secs later v n t in
      let small : InU64 claims none later =
        (ground (arith, t.deadline_fits), ground (arith, t.deadline_fits), t.later_fits, tt) in
      let checks =
        (check_claims_iff codec claims pb config none later full nbf small).1
          (refl, refl, open_window) in
      decoded-step _ pb _ laws
      ∙ on_accepted-step _ _ claims (ap (or_rejected _) read)
      ∙ on_accepted-step _ _ tt checks
      ∙ ground (arith, n, is_valid_family_id-blank family_id v)

  compact_assoc : (a b c : Text) → (a ++ 46 ∷ b) ++ 46 ∷ c ≡ compact a b c
  compact_assoc [] b c = refl
  compact_assoc (x ∷ a) b c = ap (λ r. x ∷ r) (compact_assoc a b c)

  -- A token that was built for a user and a well-formed family validates between its date of issue
  -- and its deadline, give or take the skew, and gives back the very claims it was minted with. The
  -- user id is not blank, the issuer is configured, the deadline fits `u64`, and the codec and the key
  -- manager read back what they wrote.
  pub validate_access_token-build :
      (user : User) (family_id token : Text) (now_secs later ttl : ℕ)
      → Lawful codec
      → LawfulKeys keys
      → is_empty config.issuer ≡ false
      → build_access_token codec keys config user family_id now_secs ≡ ok (token, ttl)
      → is_valid_family_id family_id ≡ true
      → is_blank user.id ≡ false
      → InTime now_secs later
      → validate_access_token codec keys config token later
        ≡ accepted (minted_claims codec keys config user family_id now_secs)
  unfolding validate_access_token
  validate_access_token-build user family_id token now_secs later ttl laws ks full e v n t =
      let b = build-Built user family_id now_secs token ttl e in
      let claims = minted_claims codec keys config user family_id now_secs in
      let (_, nonempty) =
        laws.header_read (minted_header codec keys config) b.header_bytes b.header in
      let (_, _, payload_full) =
        laws.claims_read claims b.payload_bytes b.payload (minted-Flat user family_id now_secs) in
      let (_, signature_full) = ks.verify-sign _ b.signature b.signed in
      let joined =
        b.shape
        ∙ compact_assoc (codec.encode b.header_bytes) (codec.encode b.payload_bytes)
            (codec.encode b.signature) in
      on_accepted-step _ _ _ (
        ap split_jws_segments joined
        ∙ split-compact _ _ _ (laws.encode-Segment _ nonempty) (laws.encode-Segment _ payload_full)
            (laws.encode-Segment _ signature_full))
      ∙ on_accepted-step _ _ tt (
          verify_signature-minted b.header_bytes b.payload_bytes b.signature laws ks b.header
            b.signed)
      ∙ read_claims-minted user family_id now_secs later b.payload_bytes laws b.payload full v n t
