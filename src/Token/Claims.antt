-- ===== src/Token/Claims.antt =====
-- crates/core/src/service/claims.rs: the reserved claim names, and the custom claims of a token.
pub mod Reserved
use oidc_exchange.Base.{
  ℕ, Bool, true, false, ◌&&◌, ◌||◌, not, Option, none, some, List, [], ◌∷◌, ◌++◌, ◌==◌, ◌≡◌, ◌≢◌,
  refl, sym, ap, ◌∙◌, Text, codes, text_eq, text_eq_iff, text_eq_refl, text_lt, is_empty,
  if◌then◌else◌, member, strip_prefix, get, trim, last_of, split, Bool-cases, inl, inr, arith, map,
}
use oidc_exchange.Domain.Audit.{Value, text}
use oidc_exchange.Domain.User.{User}

abbrev pub reserved_claims : List Text
reserved_claims =
    codes "iss"
    ∷ codes "sub"
    ∷ codes "aud"
    ∷ codes "exp"
    ∷ codes "nbf"
    ∷ codes "iat"
    ∷ codes "jti"
    ∷ codes "acr"
    ∷ codes "amr"
    ∷ codes "at_hash"
    ∷ codes "auth_time"
    ∷ codes "azp"
    ∷ codes "c_hash"
    ∷ codes "cnf"
    ∷ codes "nonce"
    ∷ codes "sid"
    ∷ codes "typ"
    ∷ codes "client_id"
    ∷ codes "scope"
    ∷ codes "scp"
    ∷ codes "roles"
    ∷ codes "groups"
    ∷ codes "entitlements"
    ∷ codes "permissions"
    ∷ []

unfoldable pub is_reserved_claim : Text → Bool
is_reserved_claim key = member key reserved_claims

-- The lesser of a key and the answer for the rest.
unfoldable pub lesser : Text → Option Text → Option Text
lesser k none = some k
lesser k (some j) = if text_lt j k then some j else some k

-- The lowest of the keys that are reserved, which sorting the keys finds first.
unfoldable pub find_reserved_claim_key : {V : Type 0} → List (Text × V) → Option Text
unfolding lesser
find_reserved_claim_key [] = none
find_reserved_claim_key ((k, _) ∷ m) =
    let rest = find_reserved_claim_key m in if is_reserved_claim k then lesser k rest else rest

-- `HashMap::insert`
unfoldable pub insert : {V : Type 0} → Text → V → List (Text × V) → List (Text × V)
insert k v [] = (k, v) ∷ []
insert k v ((j, w) ∷ m) =
    let rest = insert k v m in if text_eq k j then (j, v) ∷ m else (j, w) ∷ rest

-- What stands before the first bar, and what follows it.
unfoldable pub split_once : ℕ → Text → Option (Text × Text)
split_once c [] = none
split_once c (x ∷ t) =
    let rest = split_once c t in
    if x == c then some ([], t) else elim rest [ none ↦ none | some (a, b) ↦ some (x ∷ a, b) ]

-- A quoted default without its quotes.
unfoldable pub unquote : Text → Text
unquote [] = []
unquote (c ∷ t) = elim (last_of t) [
  | none ↦ c ∷ t
  | some (a, y) ↦ if (c == 39) && (y == 39) then a else c ∷ t
]

unfoldable pub parse_default_filter : Text → Option (Text × Text)
parse_default_filter inner = elim (split_once 124 inner) [
  | none ↦ none
  | some (path, filter_part) ↦ elim (strip_prefix (codes "default:") (trim filter_part)) [
    | none ↦ none
    | some rest ↦ some (path, unquote (trim rest))
  ]
]

-- The key after `user.metadata` or `user.claims`.
abbrev third : {V : Type 0} → List Text → (Text → Option V) → Option V
third [] f = none
third (key ∷ _) f = f key

unfoldable pub user_field : Text → List Text → User → Option Value
user_field name rest user =
    if text_eq name (codes "id")
    then some (text user.id)
    else if text_eq name (codes "email")
    then elim user.email [ none ↦ none | some e ↦ some (text e) ]
    else if text_eq name (codes "display_name")
    then elim user.display_name [ none ↦ none | some d ↦ some (text d) ]
    else if text_eq name (codes "provider")
    then some (text user.provider)
    else if text_eq name (codes "external_id")
    then some (text user.external_id)
    else if text_eq name (codes "metadata")
    then third rest (λ key. get key user.metadata)
    else if text_eq name (codes "claims")
    then third rest (λ key. if is_reserved_claim key then none else get key user.claims)
    else none

unfoldable pub field_at : List Text → User → Option Value
field_at (root ∷ name ∷ rest) user =
    if text_eq root (codes "user") then user_field name rest user else none
field_at _ user = none

unfoldable pub resolve_field : Text → User → Option Value
resolve_field path user = field_at (split 46 path) user

-- What stands between `{{` and `}}`.
unfoldable pub braced : Text → Option Text
braced t = elim (strip_prefix (codes "{{") t) [
  | none ↦ none
  | some r ↦ elim (last_of r) [
    | none ↦ none
    | some (a, y) ↦ elim (last_of a) [
      | none ↦ none
      | some (b, z) ↦ if (y == 125) && (z == 125) then some b else none
    ]
  ]
]

unfoldable pub reference : Text → User → Option Value
reference inner user = elim (parse_default_filter inner) [
  | none ↦ resolve_field inner user
  | some (path, default) ↦ elim (resolve_field (trim path) user) [
    | none ↦ some (text default)
    | some v ↦ some v
  ]
]

unfoldable pub resolve_template : Text → User → Option Value
resolve_template template user = elim (braced (trim template)) [
  | none ↦ some (text template)
  | some inner ↦ reference (trim inner) user
]

-- The loop over the templates.
unfoldable pub resolve_templates :
    List (Text × Text) → User → List (Text × Value) → List (Text × Value)
resolve_templates [] user result = result
resolve_templates ((key, template) ∷ m) user result =
    if is_reserved_claim key
    then resolve_templates m user result
    else elim (resolve_template template user) [
      | none ↦ resolve_templates m user result
      | some value ↦ resolve_templates m user (insert key value result)
    ]

-- The loop over the claims of the user.
unfoldable pub merge_claims : List (Text × Value) → List (Text × Value) → List (Text × Value)
merge_claims [] result = result
merge_claims ((key, value) ∷ m) result =
    if is_reserved_claim key
    then merge_claims m result
    else merge_claims m (insert key value result)

unfoldable pub resolve_custom_claims : Option (List (Text × Text)) → User → List (Text × Value)
resolve_custom_claims none user = merge_claims user.claims []
resolve_custom_claims (some templates) user =
    merge_claims user.claims (resolve_templates templates user [])
