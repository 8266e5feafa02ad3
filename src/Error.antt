-- ===== src/Error.antt =====
-- crates/core/src/error.rs: the error type and what a client is told of it. A failed `assert!` is
-- the third outcome, `panicked`.
use oidc_exchange.Base.{ℕ, Bool, true, false, Text, codes, ◌≡◌, ◌⊎◌, refl, inl, inr}

pub data Error : Type 0 where
  invalid_grant invalid_token invalid_request unknown_provider access_denied user_suspended
        unauthorized conflict not_found :
      Text → Error
  too_many_requests : ℕ → Error
  provider_error : Text → Text → Error
  provider_timeout : Text → Error
  store_error key_error audit_error security_audit_durability sync_error config_error : Text → Error

unfoldable pub client_description : Error → Text
client_description (invalid_grant _) = codes "the provided grant could not be validated"
client_description (invalid_token _) = codes "the provided token could not be validated"
client_description (invalid_request _) =
    codes "the request is missing a required parameter or is otherwise malformed"
client_description (unknown_provider _) = codes "no identity provider matched the requested name"
client_description (access_denied _) = codes "access was denied for this account or request"
client_description (user_suspended _) = codes "user account is suspended"
client_description (unauthorized _) = codes "the request could not be authenticated"
client_description (conflict _) = codes "the request conflicts with an existing resource"
client_description (not_found _) = codes "the requested resource was not found"
client_description (too_many_requests _) = codes "too many authentication attempts"
client_description (provider_error _ _) = codes "upstream provider error"
client_description (provider_timeout _) = codes "upstream provider timeout"
client_description _ = codes "internal server error"

pub data Result {ℓ} (A : Type ℓ) : Type ℓ where
  ok : A → Result A
  err : Error → Result A
  panicked : Result A

infixl 5 ◌>>=◌ ◌>>◌
abbrev pub ◌>>=◌ {ℓ κ} : {A : Type ℓ} {B : Type κ} → Result A → (A → Result B) → Result B
ok a >>= f = f a
err e >>= f = err e
panicked >>= f = panicked

abbrev pub ◌>>◌ {ℓ} : {B : Type ℓ} → Result (Unit {0}) → Result B → Result B
m >> k = m >>= λ _. k

-- `assert!`
abbrev pub assert : Bool → Result (Unit {0})
assert true = ok tt
assert false = panicked

pub Result-cases {ℓ} :
    {A : Type ℓ} (r : Result A)
    → ((a : A) × (r ≡ ok a)) ⊎ (((e : Error) × (r ≡ err e)) ⊎ (r ≡ panicked))
Result-cases (ok a) = inl (a, refl)
Result-cases (err e) = inr (inl (e, refl))
Result-cases panicked = inr (inr refl)

-- Where a chain succeeds, so does its first step, and the rest after it.
pub >>=-ok {ℓ κ} :
    {A : Type ℓ} {B : Type κ} (m : Result A) (f : A → Result B) (b : B)
    → m >>= f ≡ ok b
    → (a : A) × (m ≡ ok a) × (f a ≡ ok b)
>>=-ok (ok a) f b e = (a, refl, e)
>>=-ok (err x) f b e = cc
>>=-ok panicked f b e = cc
