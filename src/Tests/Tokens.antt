-- ===== src/Tests/Tokens.antt =====
-- Access tokens, their claims and durations at concrete inputs.
use oidc_exchange.Base.{
  ℕ, ◌*◌, ◌<◌, ◌^◌, ◌≡◌, ◌↔◌, refl, true, false, Option, none, some, List, [], ◌∷◌, Text, codes,
  is_empty, is_blank, is_whitespace, text_eq, text_eq_iff, get, member, has_char, trim, last_of,
  strip_prefix, Bool-cases, inl, inr, arith, trim_end, trim_start, keep_end,
}
use oidc_exchange.Error.{Result, ok}
use oidc_exchange.Domain.Audit.{Value, text}
use oidc_exchange.Domain.User.{User, active}
use oidc_exchange.Domain.Session.{is_valid_family_id}
use oidc_exchange.Token.{
  AccessTokenClaims, TokenConfig, accepted, split_jws_segments, check_claims, validate_access_token,
  build_access_token, minted_claims, or_config_error,
}
use oidc_exchange.Token.Claims.{is_reserved_claim, resolve_custom_claims, merge_claims}
use oidc_exchange.Token.Claims.Reserved.{
  or_else, templates_of, resolve_custom_claims-precedence, SameUnreserved,
  resolve_custom_claims-noninterference, resolve_custom_claims-unreserved,
}
use oidc_exchange.Token.Segments.{Segment, compact, split_jws_segments_iff}
use oidc_exchange.Token.Window.{Valid, check_claims_iff}
use oidc_exchange.Token.Authentic.{Authentic, validate_access_token-Authentic}
use oidc_exchange.Token.Minted.{validate_access_token-build}
use oidc_exchange.Token.Duration.{
  parse_duration_secs, parse_duration_secs-Digits, parse_duration_secs-bound, digits, parse_u64,
  seconds_per, parse_trimmed, in_seconds,
}
use oidc_exchange.Tests.Rows.{family, family_valid}
use oidc_exchange.Tests.Toy.{toy, toy_keys, toy-Lawful, toy_keys-Lawful}

abbrev plan : List (Text × Value)
plan = (codes "plan", text (codes "pro")) ∷ []

abbrev forged : List (Text × Value)
forged = (codes "sub", text (codes "usr_2")) ∷ plan

abbrev pub user_with : List (Text × Value) → User
user_with claims = record {
  id = codes "usr_1";
  external_id = codes "google-1";
  provider = codes "google";
  email = none;
  display_name = none;
  metadata = [];
  claims = claims;
  status = active;
  version = 1;
  created_at = 0;
  updated_at = 0;
}

-- One template has a reserved name, another reads a reserved claim back.
abbrev templates : Option (List (Text × Text))
templates = some (
    (codes "iss", codes "elsewhere")
    ∷ (codes "copy", codes "{{ user.claims.sub }}")
    ∷ (codes "plan", codes "free")
    ∷ [])

sub_reserved : is_reserved_claim (codes "sub") ≡ true
unfolding is_reserved_claim member text_eq
sub_reserved = refl

plan_unreserved : is_reserved_claim (codes "plan") ≡ false
unfolding is_reserved_claim member text_eq
plan_unreserved = refl

forged-get : (k : Text) → is_reserved_claim k ≡ false → get k forged ≡ get k plan
unfolding get
forged-get k n = elim (Bool-cases (text_eq k (codes "sub"))) [
  | inl e ↦ absurd (ground (arith, n, sub_reserved, (text_eq_iff k (codes "sub")).0 e))
  | inr e ↦ rw e refl
]

resolve_custom_claims-precedence_example :
    get (codes "plan") (resolve_custom_claims templates (user_with forged))
    ≡ or_else
        (get (codes "plan") forged)
        (get (codes "plan") (templates_of templates (user_with forged)))
unfolding get text_eq
resolve_custom_claims-precedence_example =
    resolve_custom_claims-precedence templates (user_with forged) (codes "plan") (refl, (refl, tt))
      plan_unreserved

forged-Same : SameUnreserved forged plan
unfolding get text_eq
forged-Same = record {
  unreserved = forged-get;
  distinct_left = (refl, (refl, tt));
  distinct_right = (refl, tt);
}

resolve_custom_claims-unreserved_example :
    get (codes "sub") (resolve_custom_claims templates (user_with forged)) ≡ none
unfolding is_reserved_claim member text_eq
resolve_custom_claims-unreserved_example =
    resolve_custom_claims-unreserved templates (user_with forged) (codes "sub") refl

resolve_custom_claims-noninterference_example :
    get (codes "copy") (resolve_custom_claims templates (user_with forged))
    ≡ get (codes "copy") (resolve_custom_claims templates (user_with plan))
resolve_custom_claims-noninterference_example =
    resolve_custom_claims-noninterference (user_with forged) plan forged-Same templates
      (codes "copy")

split_jws_segments_iff_example :
    (split_jws_segments (codes "a.b.c") ≡ accepted (codes "a", codes "b", codes "c")) ↔ (
      (codes "a.b.c" ≡ compact (codes "a") (codes "b") (codes "c"))
      × Segment (codes "a")
      × Segment (codes "b")
      × Segment (codes "c"))
split_jws_segments_iff_example =
    split_jws_segments_iff (codes "a.b.c") (codes "a") (codes "b") (codes "c")

abbrev pub token_config : TokenConfig
token_config = record {
  issuer = codes "https://auth.test";
  audience = codes "https://api.test";
  access_token_ttl = 900;
  custom_claims = none;
}

abbrev pub minted : AccessTokenClaims
minted = minted_claims toy toy_keys token_config (user_with []) family 1000

check_claims_iff_example : (check_claims toy minted [] token_config 1960 ≡ accepted tt) ↔ (
    (codes "https://auth.test" ≡ codes "https://auth.test")
    × (codes "https://api.test" ≡ codes "https://api.test")
    × Valid minted none 1960)
unfolding is_empty
check_claims_iff_example =
    check_claims_iff toy minted [] token_config none 1960 refl refl
      (omega arith, omega arith, omega arith, tt)

abbrev text_of : Result (Text × ℕ) → Text
text_of (ok (t, _)) = t
text_of _ = []

abbrev pub token : Text
token = text_of (build_access_token toy toy_keys token_config (user_with []) family 1000)

token_built :
    build_access_token toy toy_keys token_config (user_with []) family 1000 ≡ ok (token, 900)
unfolding build_access_token is_empty is_valid_family_id strip_prefix has_char or_config_error
    resolve_custom_claims merge_claims
token_built = refl

pub token_full : is_empty token ≡ false
unfolding build_access_token is_empty is_valid_family_id strip_prefix has_char or_config_error
    resolve_custom_claims merge_claims
token_full = refl

user_named : is_blank (codes "usr_1") ≡ false
unfolding is_blank is_empty is_whitespace
user_named = refl

validate_access_token-build_example :
    validate_access_token toy toy_keys token_config token 1960 ≡ accepted minted
unfolding is_empty
validate_access_token-build_example =
    validate_access_token-build toy toy_keys token_config (user_with []) family token 1000 1960 900
      toy-Lawful toy_keys-Lawful refl token_built family_valid user_named
      (record {
        after = omega arith;
        before = omega arith;
        deadline_fits = omega arith;
        later_fits = omega arith;
      })

pub token_validates : validate_access_token toy toy_keys token_config token 1500 ≡ accepted minted
unfolding is_empty
token_validates =
    validate_access_token-build toy toy_keys token_config (user_with []) family token 1000 1500 900
      toy-Lawful toy_keys-Lawful refl token_built family_valid user_named
      (record {
        after = omega arith;
        before = omega arith;
        deadline_fits = omega arith;
        later_fits = omega arith;
      })

validate_access_token-Authentic_example : Authentic toy toy_keys token_config token minted 1500
validate_access_token-Authentic_example =
    validate_access_token-Authentic toy toy_keys token_config token minted 1500 token_validates

abbrev quoted : Text → Text
quoted s = s

parse_duration_secs-Digits_example :
    (parse_duration_secs quoted (codes "15m") ≡ ok 900) ↔ ((900 ≡ 15 * 60) × (900 < 2 ^ 64))
unfolding seconds_per
parse_duration_secs-Digits_example =
    parse_duration_secs-Digits quoted 49 (codes "5") 109 60 900 (refl, (refl, tt)) refl

parse_duration_secs-bound_example : 2_592_000 < 2 ^ 64
unfolding parse_duration_secs parse_trimmed in_seconds trim trim_start trim_end keep_end
    is_whitespace is_empty last_of parse_u64 digits seconds_per
parse_duration_secs-bound_example = parse_duration_secs-bound quoted (codes " 30d ") 2_592_000 refl
