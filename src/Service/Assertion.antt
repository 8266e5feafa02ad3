-- ===== src/Service/Assertion.antt =====
-- crates/core/src/service/assertion.rs: the binding of a verified ID token, and the minting of nonces.
pub mod Once
use oidc_exchange.Base.{
  ℕ, ◌+◌, ◌-◌, ◌/◌, ◌^◌, Bool, true, false, not, ◌&&◌, ◌||◌, Option, none, some, List, [], ◌∷◌,
  ◌++◌, Text, codes, length, ltb, leb, ◌==◌, text_eq, is_empty, get, if◌then◌else◌,
}
use oidc_exchange.Error.{Error, Result, ok, err, panicked, store_error}
use oidc_exchange.Domain.Session.{seconds, max_timestamp, seconds_after}
use oidc_exchange.Service.{SessionRepository}

-- What is read of a JSON value: a string, a number of whole seconds after the epoch or before it (a
-- fraction cut off), the length of an array, anything else.
pub data RawValue : Type 0 where
  string : Text → RawValue
  after_epoch before_epoch : ℕ → RawValue
  array : ℕ → RawValue
  other : RawValue

pub record IdentityClaims : Type 0 where
  pub signing_alg : Text
  pub raw_claims : List (Text × RawValue)

pub record AssertionContext : Type 0 where
  pub provider_id : Text
  pub client_id : Text
  pub access_token : Option Text
  pub compact_jwt : Text
  pub require_nonce : Bool
  pub max_assertion_secs : ℕ

-- The digests: hexadecimal SHA-256, and the base64url of the left half of SHA-256, 384 and 512.
pub record Digests : Type 0 where
  pub sha256_hex : Text → Text
  pub half_256 : Text → Text
  pub half_384 : Text → Text
  pub half_512 : Text → Text

-- The clock at each reading.
pub record Clocks : Type 0 where
  pub at_bind : ℕ
  pub at_take : ℕ
  pub at_put : ℕ

-- `Result<_, AssertionBindError>`, with the name of the failed control and its reason, and the panic
-- of an assertion.
pub data Binding {ℓ} (A : Type ℓ) : Type ℓ where
  bound : A → Binding A
  rejected : Text → Text → Binding A
  store : Error → Binding A
  halted : Binding A

abbrev pub check_lifetime_ceiling : Text
check_lifetime_ceiling = codes "lifetime_ceiling"

abbrev pub check_name_azp : Text
check_name_azp = codes "azp"

abbrev pub check_name_at_hash : Text
check_name_at_hash = codes "at_hash"

abbrev pub check_name_nonce : Text
check_name_nonce = codes "nonce"

abbrev pub check_single_use : Text
check_single_use = codes "single_use"

abbrev pub as_string : Option RawValue → Option Text
as_string (some (string t)) = some t
as_string _ = none

unfoldable pub str_claim : IdentityClaims → Text → Option Text
str_claim claims name = as_string (get name claims.raw_claims)

-- `filter(|s| !s.is_empty())`
abbrev pub nonempty : Option Text → Option Text
nonempty none = none
nonempty (some t) = if is_empty t then none else some t

abbrev pub unusable_exp : Binding ℕ
unusable_exp = rejected check_lifetime_ceiling (codes "assertion has no usable exp claim")

abbrev pub expired : Binding ℕ
expired = rejected check_lifetime_ceiling (codes "assertion is already expired")

-- `remaining > max_assertion_secs as i64`, of a `u64`: from 2^63 on the cast is negative.
unfoldable pub exceeds : ℕ → ℕ → Bool
exceeds remaining max_assertion_secs =
    if ltb max_assertion_secs (2 ^ 63) then ltb max_assertion_secs remaining else true

-- The remaining lifetime of a date of expiry, in whole seconds.
unfoldable pub within_ceiling : ℕ → ℕ → ℕ → Binding ℕ
within_ceiling exp_secs timestamp max_assertion_secs =
    if leb exp_secs timestamp
    then expired
    else if exceeds (exp_secs - timestamp) max_assertion_secs
    then rejected check_lifetime_ceiling (codes "assertion lifetime exceeds the configured maximum")
    else if ltb max_timestamp exp_secs
    then unusable_exp
    else bound (seconds exp_secs)

unfoldable pub check_lifetime : IdentityClaims → ℕ → ℕ → Binding ℕ
check_lifetime claims now max_assertion_secs =
    let timestamp = now / 1_000_000_000 in
    elim (get (codes "exp") claims.raw_claims) [
      | some (after_epoch exp_secs) ↦
          if ltb 0 timestamp then within_ceiling exp_secs timestamp max_assertion_secs else halted
      | some (before_epoch _) ↦ if ltb 0 timestamp then expired else halted
      | _ ↦ unusable_exp
    ]

abbrev is_multi : Option RawValue → Bool
is_multi (some (array n)) = ltb 1 n
is_multi _ = false

unfoldable pub check_azp : IdentityClaims → AssertionContext → Binding (Unit {0})
check_azp claims ctx = elim (str_claim claims (codes "azp")) [
  | some azp ↦
      if text_eq azp ctx.client_id
      then bound tt
      else rejected check_name_azp (codes "azp does not match this client")
  | none ↦
      if is_multi (get (codes "aud") claims.raw_claims)
      then rejected check_name_azp (codes "multi-audience assertion requires azp")
      else bound tt
]

unfoldable pub ends_with : Text → Text → Bool
ends_with p [] = is_empty p
ends_with p (c ∷ t) = text_eq p (c ∷ t) || ends_with p t

unfoldable pub at_hash_value : Digests → Text → Text → Option Text
at_hash_value digests signing_alg access_token =
    if ends_with (codes "256") signing_alg
    then some (digests.half_256 access_token)
    else if ends_with (codes "384") signing_alg
    then some (digests.half_384 access_token)
    else if ends_with (codes "512") signing_alg
    then some (digests.half_512 access_token)
    else none

-- The comparison is in constant time.
unfoldable pub compare_at_hash : Option Text → Text → Binding (Unit {0})
compare_at_hash none claimed =
    rejected check_name_at_hash (codes "no verifiable at_hash digest for this signing algorithm")
compare_at_hash (some expected) claimed =
    if text_eq expected claimed
    then bound tt
    else rejected check_name_at_hash (codes "at_hash does not match the accompanying access token")

unfoldable pub check_at_hash : Digests → IdentityClaims → AssertionContext → Binding (Unit {0})
check_at_hash digests claims ctx = elim (str_claim claims (codes "at_hash")) [
  | none ↦ bound tt
  | some claimed ↦
      if text_eq claims.signing_alg (codes "EdDSA")
      then rejected check_name_at_hash
          (codes "at_hash is unverifiable on an EdDSA-signed assertion")
      else elim ctx.access_token [
        | none ↦ bound tt
        | some token ↦ compare_at_hash (at_hash_value digests claims.signing_alg token) claimed
      ]
]

unfoldable pub nonce_key : Digests → Text → Text
nonce_key digests nonce = codes "nonce:" ++ digests.sha256_hex nonce

unfoldable pub assertion_marker_key : Digests → AssertionContext → IdentityClaims → Text
assertion_marker_key digests ctx claims = elim (nonempty (str_claim claims (codes "jti"))) [
  | some jti ↦ codes "assertion:" ++ (ctx.provider_id ++ (codes ":" ++ digests.sha256_hex jti))
  | none ↦
      codes "assertion:" ++ (ctx.provider_id ++ (codes ":d:" ++ digests.sha256_hex ctx.compact_jwt))
]

-- The answer of the store, and the reason for a record that is not there, or that is there.
unfoldable pub used : Text → Text → Result Bool → Binding (Unit {0})
used check reason (ok true) = bound tt
used check reason (ok false) = rejected check reason
used check reason (err e) = store e
used check reason panicked = halted

module _ {S : Type 0} (repo : SessionRepository S) (digests : Digests) where
  unfoldable pub consume_nonce : IdentityClaims → ℕ → S → Binding (Unit {0}) × S
  consume_nonce claims now s = elim (nonempty (str_claim claims (codes "nonce"))) [
    | none ↦ (rejected check_name_nonce (codes "assertion carries no usable nonce"), s)
    | some nonce ↦
        (let (burned, s') = repo.take_single_use (nonce_key digests nonce) now s in
          (used check_name_nonce (codes "nonce is missing, expired, or already used") burned, s'))
  ]

  unfoldable pub claim_assertion_marker :
      IdentityClaims → AssertionContext → ℕ → ℕ → S → Binding (Unit {0}) × S
  claim_assertion_marker claims ctx expires_at now s =
      let (claimed, s') =
        repo.put_single_use (assertion_marker_key digests ctx claims) expires_at now s in
      (used check_single_use (codes "assertion has already been used") claimed, s')

  -- The nonce of the direct grant, where it is required.
  unfoldable pub nonce_gate : IdentityClaims → AssertionContext → ℕ → S → Binding (Unit {0}) × S
  nonce_gate claims ctx now s =
      if ctx.require_nonce then consume_nonce claims now s else (bound tt, s)

  -- The writes, after the controls that read.
  unfoldable pub burn : IdentityClaims → AssertionContext → Clocks → ℕ → S → Binding (Unit {0}) × S
  burn claims ctx clocks expires_at s =
      let (gate, s') = nonce_gate claims ctx clocks.at_take s in
      elim gate [
        | bound _ ↦ claim_assertion_marker claims ctx expires_at clocks.at_put s'
        | rejected check reason ↦ (rejected check reason, s')
        | store e ↦ (store e, s')
        | halted ↦ (halted, s')
      ]

  -- The controls that read only, in their order: the date of expiry where they all pass.
  unfoldable pub controls : IdentityClaims → AssertionContext → ℕ → Binding ℕ
  controls claims ctx now = elim (check_lifetime claims now ctx.max_assertion_secs) [
    | bound expires_at ↦ elim (check_azp claims ctx) [
      | bound _ ↦ elim (check_at_hash digests claims ctx) [
        | bound _ ↦ bound expires_at
        | rejected check reason ↦ rejected check reason
        | store e ↦ store e
        | halted ↦ halted
      ]
      | rejected check reason ↦ rejected check reason
      | store e ↦ store e
      | halted ↦ halted
    ]
    | rejected check reason ↦ rejected check reason
    | store e ↦ store e
    | halted ↦ halted
  ]

  unfoldable pub bind : IdentityClaims → AssertionContext → Clocks → S → Binding (Unit {0}) × S
  bind claims ctx clocks s = elim (controls claims ctx clocks.at_bind) [
    | bound expires_at ↦ burn claims ctx clocks expires_at s
    | rejected check reason ↦ (rejected check reason, s)
    | store e ↦ (store e, s)
    | halted ↦ (halted, s)
  ]

  -- `nonce` is the base64url of 32 random bytes; `now` and `at_put` are readings of the clock.
  unfoldable pub mint_nonce : ℕ → Text → ℕ → ℕ → S → Result (Text × ℕ) × S
  mint_nonce ttl_secs nonce now at_put s =
      if ltb ((2 ^ 64 - 1) / 2) ttl_secs
        || not (length nonce == 43)
        || not (length (digests.sha256_hex nonce) == 64)
      then (panicked, s)
      else elim (seconds_after now ttl_secs) [
        | ok expires_at ↦
            (let (claimed, s') =
                repo.put_single_use (nonce_key digests nonce) expires_at at_put s in
              (
                elim claimed [
                  | ok true ↦ ok (nonce, ttl_secs)
                  | ok false ↦ err (store_error (codes "single-use nonce key collision"))
                  | err e ↦ err e
                  | panicked ↦ panicked
                ],
                s',
              ))
        | err e ↦ (err e, s)
        | panicked ↦ (panicked, s)
      ]
