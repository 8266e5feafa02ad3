-- ===== src/Tests/Toy.antt =====
-- A codec and a key manager that keep the laws of the real ones: characters are shifted past the dot,
-- and fields stand with a dot between them.
use oidc_exchange.Base.{
  ℕ, ◌+◌, ◌-◌, ◌≡◌, refl, sym, ap, ◌∙◌, true, false, Option, none, some, List, [], ◌∷◌, map, Text,
  codes, is_empty, text_eq, text_eq_refl, has_char, split, split-separated, split-whole, ◌⊎◌, inl,
  inr, arith,
}
use oidc_exchange.Error.{ok}
use oidc_exchange.Domain.Audit.{Value}
use oidc_exchange.Token.{AccessTokenClaims, AccessTokenHeader, Codec, KeyManager}
use oidc_exchange.Token.Lawful.{Lawful, LawfulKeys}
use oidc_exchange.Token.Segments.{rejoin}

abbrev pub encode : Text → Text
encode [] = []
encode (c ∷ t) = (c + 47) ∷ encode t

abbrev pub decode : Text → Text
decode [] = []
decode (c ∷ t) = (c - 47) ∷ decode t

pub decode-encode : (t : Text) → decode (encode t) ≡ t
decode-encode [] = refl
decode-encode (c ∷ t) = ground (arith, decode-encode t)

encode-no_dot : (t : Text) → has_char 46 (encode t) ≡ false
unfolding has_char
encode-no_dot [] = refl
encode-no_dot (c ∷ t) = ground (arith, encode-no_dot t)

pub encode-full : (t : Text) → is_empty t ≡ false → is_empty (encode t) ≡ false
unfolding is_empty
encode-full [] h = h
encode-full (c ∷ t) h = refl

abbrev pub fields : List Text → Text
fields ts = rejoin (map encode ts)

abbrev pub unfields : Text → List Text
unfields t = map decode (split 46 t)

pub unfields-fields : (t : Text) (ts : List Text) → unfields (fields (t ∷ ts)) ≡ t ∷ ts
unfields-fields t [] =
    ap (map decode) (split-whole 46 (encode t) (encode-no_dot t))
    ∙ ap (λ x. x ∷ []) (decode-encode t)
unfields-fields t (u ∷ ts) =
    ap (map decode) (split-separated 46 (encode t) (fields (u ∷ ts)) (encode-no_dot t))
    ∙ ground (arith, decode-encode t, unfields-fields u ts)

pub fields-full : (t u : Text) (ts : List Text) → is_empty (fields (t ∷ u ∷ ts)) ≡ false
unfolding is_empty
fields-full [] u ts = refl
fields-full (c ∷ t) u ts = refl

abbrev header_of : List Text → Option AccessTokenHeader
header_of (a ∷ k ∷ t ∷ []) = some (record { alg = a; kid = k; typ = t })
header_of _ = none

abbrev number_of : Text → ℕ
number_of [] = 0
number_of (n ∷ _) = n

abbrev claims_of : List Text → Option AccessTokenClaims
claims_of (sub ∷ iss ∷ aud ∷ sid ∷ iat ∷ exp ∷ []) = some (record {
  sub = sub;
  iss = iss;
  aud = aud;
  sid = sid;
  iat = number_of iat;
  exp = number_of exp;
  custom = [];
})
claims_of _ = none

-- Only claims without custom ones are serialized.
abbrev plain_claims : List (Text × Value) → Text → Text ⊎ Text
plain_claims [] t = inr t
plain_claims (_ ∷ _) t = inl (codes "custom claims")

abbrev claim_fields : AccessTokenClaims → Text
claim_fields c = fields (c.sub ∷ c.iss ∷ c.aud ∷ c.sid ∷ (c.iat ∷ []) ∷ (c.exp ∷ []) ∷ [])

abbrev pub toy : Codec
toy = record {
  encode = encode;
  decode = λ t. some (decode t);
  header_to_vec = λ h. inr (fields (h.alg ∷ h.kid ∷ h.typ ∷ []));
  claims_to_vec = λ c. plain_claims c.custom (claim_fields c);
  header_from_slice = λ b. header_of (unfields b);
  claims_from_slice = λ b. claims_of (unfields b);
  not_before_from_slice = λ _. some none;
}

plain : (m : List (Text × Value)) (t b : Text) → plain_claims m t ≡ inr b → (m ≡ []) × (t ≡ b)
plain [] t b e = (refl, ground (arith, e))
plain (_ ∷ _) t b e = cc

toy-claims :
    (c : AccessTokenClaims) (b : Text)
    → toy.claims_to_vec c ≡ inr b
    → (toy.claims_from_slice b ≡ some c) × (is_empty b ≡ false)
toy-claims c b e =
    let (none_custom, same) = plain c.custom (claim_fields c) b e in
    (
      ap (λ (x : Text). claims_of (unfields x)) (sym same)
          ∙ ap claims_of
              (unfields-fields c.sub (c.iss ∷ c.aud ∷ c.sid ∷ (c.iat ∷ []) ∷ (c.exp ∷ []) ∷ []))
          ∙ ap (λ (m : List (Text × Value)). some (record c { custom = m })) (sym none_custom),
      ap is_empty (sym same)
          ∙ fields-full c.sub c.iss (c.aud ∷ c.sid ∷ (c.iat ∷ []) ∷ (c.exp ∷ []) ∷ []),
    )

toy-header :
    (h : AccessTokenHeader) (b : Text)
    → toy.header_to_vec h ≡ inr b
    → (toy.header_from_slice b ≡ some h) × (is_empty b ≡ false)
toy-header h b e =
    let same : fields (h.alg ∷ h.kid ∷ h.typ ∷ []) ≡ b = ground (arith, e) in
    (
      ap (λ (x : Text). header_of (unfields x)) (sym same)
          ∙ ap header_of (unfields-fields h.alg (h.kid ∷ h.typ ∷ [])),
      ap is_empty (sym same) ∙ fields-full h.alg h.kid (h.typ ∷ []),
    )

pub toy-Lawful : Lawful toy
toy-Lawful = record {
  decode-encode = λ b. ap some (decode-encode b);
  encode-Segment = λ b h. record { no_dot = encode-no_dot b; full = encode-full b h };
  header_read = toy-header;
  claims_read = λ c b e _. ((toy-claims c b e).0, refl, (toy-claims c b e).1);
}

abbrev pub toy_keys : KeyManager
toy_keys = record {
  algorithm = codes "EdDSA";
  key_id = codes "key-1";
  sign = λ m. ok (1 ∷ m);
  verify = λ m s. ok (text_eq s (1 ∷ m));
}

toy-signs :
    (m s : Text) → toy_keys.sign m ≡ ok s → (toy_keys.verify m s ≡ ok true) × (is_empty s ≡ false)
unfolding is_empty
toy-signs m s e =
    let same : s ≡ 1 ∷ m = ground (arith, e) in
    (rw same (ap ok (text_eq_refl (1 ∷ m))), rw same refl)

pub toy_keys-Lawful : LawfulKeys toy_keys
unfolding is_empty
toy_keys-Lawful = record { verify-sign = toy-signs; algorithm = refl; key_id = refl }
