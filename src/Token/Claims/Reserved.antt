-- ===== src/Token/Claims/Reserved.antt =====
-- crates/core/src/service/claims.rs: what the custom claims of a token hold.
use oidc_exchange.Base.{
  ◌≡◌, refl, sym, ap, ◌∙◌, true, false, Option, none, some, List, [], ◌∷◌, Text, text_eq,
  text_eq_iff, if◌then◌else◌, get, Distinct, Bool-cases, Option-cases, inl, inr, arith, trim, split,
}
use oidc_exchange.Domain.Audit.{Value}
use oidc_exchange.Domain.User.{User}
use oidc_exchange.Token.Claims.{
  is_reserved_claim, insert, user_field, field_at, resolve_field, reference, braced,
  parse_default_filter, resolve_template, resolve_templates, merge_claims, resolve_custom_claims,
}

pub get-insert :
    {V : Type 0} (k j : Text) (v : V) (m : List (Text × V))
    → get j (insert k v m) ≡ (if text_eq j k then some v else get j m)
unfolding get insert
get-insert k j v [] = refl
get-insert k j v ((i, w) ∷ m) =
    ground (arith, get-insert k j v m, text_eq_iff j k, text_eq_iff j i, text_eq_iff k i)

abbrev pub or_else : {V : Type 0} → Option V → Option V → Option V
or_else none b = b
or_else (some a) b = some a

-- The claims that the merge takes over come from the user's when they are not reserved.
get-merge_claims :
    (k : Text) (m result : List (Text × Value))
    → Distinct m
    → is_reserved_claim k ≡ false
    → get k (merge_claims m result) ≡ or_else (get k m) (get k result)
unfolding merge_claims get
get-merge_claims k [] result u n = refl
get-merge_claims k ((j, w) ∷ m) result u n = elim (Bool-cases (text_eq k j)) [
  | inl e ↦ ground (
    arith,
    e,
    u.0,
    text_eq_iff k j,
    get-merge_claims k m result u.1 n,
    get-merge_claims k m (insert j w result) u.1 n,
    get-insert j k w result,
  )
  | inr e ↦ ground (
    arith,
    e,
    Bool-cases (is_reserved_claim j),
    get-merge_claims k m result u.1 n,
    get-merge_claims k m (insert j w result) u.1 n,
    get-insert j k w result,
  )
]

get-merge_claims_reserved :
    (k : Text) (m result : List (Text × Value))
    → is_reserved_claim k ≡ true
    → get k (merge_claims m result) ≡ get k result
unfolding merge_claims
get-merge_claims_reserved k [] result r = refl
get-merge_claims_reserved k ((j, w) ∷ m) result r = ground (
  arith,
  get-merge_claims_reserved k m result r,
  get-merge_claims_reserved k m (insert j w result) r,
  get-insert j k w result,
  text_eq_iff k j,
)

get-resolve_templates_reserved :
    (k : Text) (m : List (Text × Text)) (user : User) (result : List (Text × Value))
    → is_reserved_claim k ≡ true
    → get k (resolve_templates m user result) ≡ get k result
unfolding resolve_templates
get-resolve_templates_reserved k [] user result r = refl
get-resolve_templates_reserved k ((j, t) ∷ m) user result r =
    elim (Option-cases (resolve_template t user)) [
      | inl e ↦ ground (arith, e, get-resolve_templates_reserved k m user result r)
      | inr e ↦ ground (
        arith,
        e.1,
        get-resolve_templates_reserved k m user result r,
        get-resolve_templates_reserved k m user (insert j e.0 result) r,
        get-insert j k e.0 result,
        text_eq_iff k j,
      )
    ]

abbrev pub templates_of : Option (List (Text × Text)) → User → List (Text × Value)
templates_of none user = []
templates_of (some templates) user = resolve_templates templates user []

resolve_custom_claims-parts :
    (templates : Option (List (Text × Text))) (user : User)
    → resolve_custom_claims templates user ≡ merge_claims user.claims (templates_of templates user)
unfolding resolve_custom_claims
resolve_custom_claims-parts none user = refl
resolve_custom_claims-parts (some m) user = refl

templates_of-reserved :
    (templates : Option (List (Text × Text))) (user : User) (k : Text)
    → is_reserved_claim k ≡ true
    → get k (templates_of templates user) ≡ none
unfolding get
templates_of-reserved none user k r = refl
templates_of-reserved (some m) user k r = get-resolve_templates_reserved k m user [] r

-- Whatever the templates and the stored claims of the user are, the custom claims of a token have no
-- reserved name.
pub resolve_custom_claims-unreserved :
    (templates : Option (List (Text × Text))) (user : User) (k : Text)
    → is_reserved_claim k ≡ true
    → get k (resolve_custom_claims templates user) ≡ none
resolve_custom_claims-unreserved templates user k r =
    ap (λ (m : List (Text × Value)). get k m) (resolve_custom_claims-parts templates user)
    ∙ get-merge_claims_reserved k user.claims (templates_of templates user) r
    ∙ templates_of-reserved templates user k r

-- Under a name that is not reserved, a token has the stored claim of the user, or else what the
-- templates give. The keys of the stored claims are distinct.
pub resolve_custom_claims-precedence :
    (templates : Option (List (Text × Text))) (user : User) (k : Text)
    → Distinct user.claims
    → is_reserved_claim k ≡ false
    → get k (resolve_custom_claims templates user)
      ≡ or_else (get k user.claims) (get k (templates_of templates user))
resolve_custom_claims-precedence templates user k d n =
    ap (λ (m : List (Text × Value)). get k m) (resolve_custom_claims-parts templates user)
    ∙ get-merge_claims k user.claims (templates_of templates user) d n

Distinct-insert :
    {V : Type 0} (k : Text) (v : V) (m : List (Text × V)) → Distinct m → Distinct (insert k v m)
unfolding insert get
Distinct-insert k v [] d = ground arith
Distinct-insert k v ((j, w) ∷ m) d =
    ground
      (arith, d, Distinct-insert k v m d.1, get-insert k j v m, text_eq_iff k j, text_eq_iff j k)

Distinct-merge_claims :
    (m result : List (Text × Value)) → Distinct result → Distinct (merge_claims m result)
unfolding merge_claims
Distinct-merge_claims [] result d = d
Distinct-merge_claims ((k, v) ∷ m) result d = elim (Bool-cases (is_reserved_claim k)) [
  | inl e ↦ rw e (Distinct-merge_claims m result d)
  | inr e ↦ rw e (Distinct-merge_claims m (insert k v result) (Distinct-insert k v result d))
]

Distinct-resolve_templates :
    (m : List (Text × Text)) (user : User) (result : List (Text × Value))
    → Distinct result
    → Distinct (resolve_templates m user result)
unfolding resolve_templates
Distinct-resolve_templates [] user result d = d
Distinct-resolve_templates ((k, t) ∷ m) user result d = elim (Bool-cases (is_reserved_claim k)) [
  | inl e ↦ rw e (Distinct-resolve_templates m user result d)
  | inr e ↦ elim (Option-cases (resolve_template t user)) [
    | inl n ↦ rw e (rw n (Distinct-resolve_templates m user result d))
    | inr (v, n) ↦ rw e (
        rw n (Distinct-resolve_templates m user (insert k v result) (Distinct-insert k v result d)))
  ]
]

pub Distinct-resolve_custom_claims :
    (templates : Option (List (Text × Text))) (user : User)
    → Distinct (resolve_custom_claims templates user)
unfolding resolve_custom_claims
Distinct-resolve_custom_claims none user = Distinct-merge_claims user.claims [] tt
Distinct-resolve_custom_claims (some m) user =
    Distinct-merge_claims user.claims (resolve_templates m user [])
      (Distinct-resolve_templates m user [] tt)

-- Two maps of claims that differ at most in reserved names.
pub record SameUnreserved (a b : List (Text × Value)) : Type 0 where
  pub unreserved : (k : Text) → is_reserved_claim k ≡ false → get k a ≡ get k b
  pub distinct_left : Distinct a
  pub distinct_right : Distinct b

user_claim-same :
    (a b : List (Text × Value)) (key : Text)
    → SameUnreserved a b
    → (if is_reserved_claim key then none else get key a)
      ≡ (if is_reserved_claim key then none else get key b)
user_claim-same a b key s = elim (Bool-cases (is_reserved_claim key)) [
  | inl e ↦ ground (arith, e)
  | inr e ↦ ground (arith, e, s.unreserved key e)
]

module _ (user : User) (b : List (Text × Value)) (s : SameUnreserved user.claims b) where
  abbrev other : User
  other = record user { claims = b }

  user_field-same :
      (name : Text) (rest : List Text) → user_field name rest user ≡ user_field name rest other
  unfolding user_field
  user_field-same name [] = refl
  user_field-same name (key ∷ _) = ground (arith, user_claim-same user.claims b key s)

  field_at-same : (path : List Text) → field_at path user ≡ field_at path other
  unfolding field_at
  field_at-same [] = refl
  field_at-same (root ∷ []) = refl
  field_at-same (root ∷ name ∷ rest) = ground (arith, user_field-same name rest)

  reference-same : (inner : Text) → reference inner user ≡ reference inner other
  unfolding reference resolve_field
  reference-same inner = elim (Option-cases (parse_default_filter inner)) [
    | inl e ↦ ground (arith, e, field_at-same (split 46 inner))
    | inr e ↦ ground (arith, e.1, field_at-same (split 46 (trim e.0.0)))
  ]

  resolve_template-same : (t : Text) → resolve_template t user ≡ resolve_template t other
  unfolding resolve_template
  resolve_template-same t = elim (Option-cases (braced (trim t))) [
    | inl e ↦ ground (arith, e)
    | inr e ↦ ground (arith, e.1, reference-same (trim e.0))
  ]

  resolve_templates-same :
      (m : List (Text × Text)) (result : List (Text × Value))
      → resolve_templates m user result ≡ resolve_templates m other result
  unfolding resolve_templates
  resolve_templates-same [] result = refl
  resolve_templates-same ((k, t) ∷ m) result = elim (Option-cases (resolve_template t user)) [
    | inl e ↦ ground (arith, e, resolve_template-same t, resolve_templates-same m result)
    | inr e ↦ ground (
      arith,
      e.1,
      resolve_template-same t,
      resolve_templates-same m result,
      resolve_templates-same m (insert k e.0 result),
    )
  ]

  templates_of-same :
      (templates : Option (List (Text × Text)))
      → templates_of templates user ≡ templates_of templates other
  templates_of-same none = refl
  templates_of-same (some m) = resolve_templates-same m []

  -- A stored claim of a reserved name has no influence on the custom claims of a token, neither under
  -- its own name nor through a template. The keys of each map of stored claims are distinct.
  pub resolve_custom_claims-noninterference :
      (templates : Option (List (Text × Text))) (k : Text)
      → get k (resolve_custom_claims templates user) ≡ get k (resolve_custom_claims templates other)
  resolve_custom_claims-noninterference templates k = elim (Bool-cases (is_reserved_claim k)) [
    | inl r ↦
        resolve_custom_claims-unreserved templates user k r
        ∙ sym (resolve_custom_claims-unreserved templates other k r)
    | inr n ↦
        resolve_custom_claims-precedence templates user k s.distinct_left n
        ∙ ground (arith, s.unreserved k n, templates_of-same templates)
        ∙ sym (resolve_custom_claims-precedence templates other k s.distinct_right n)
  ]
