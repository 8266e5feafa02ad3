-- ===== src/Server/ApiError.antt =====
-- crates/server/src/error.rs: the response that an error is answered with.
use oidc_exchange.Base.{
  ℕ, ◌≡◌, ◌↔◌, ◌⊎◌, inl, inr, refl, ap, false, not, Option, none, some, List, [], ◌∷◌, ◌++◌, Text,
  codes, text_eq, text_eq_iff, member, max, length, length-append, Bool-cases, if◌then◌else◌, arith,
}
use oidc_exchange.Error.{
  Error, Result, ok, panicked, client_description, assert, ◌>>◌, ◌>>=◌, invalid_grant,
  invalid_token, invalid_request, unknown_provider, access_denied, user_suspended, unauthorized,
  conflict, not_found, too_many_requests, provider_error, provider_timeout, store_error, key_error,
  audit_error, security_audit_durability, sync_error, config_error,
}

pub record ErrorResponse : Type 0 where
  pub error : Text
  pub error_description : Text

-- The status, the body, the extension `RenderedOAuthErrorCode` and the header `Retry-After`.
pub record Response : Type 0 where
  pub status : ℕ
  pub body : ErrorResponse
  pub rendered_code : Text
  pub retry_after : Option ℕ

pub data ApiError : Type 0 where
  domain : Error → ApiError
  unsupported_grant_type : ApiError

-- `Display` of an error; `decimal` prints a number.
unfoldable pub display : (ℕ → Text) → Error → Text
display decimal (invalid_grant t) = codes "invalid grant: " ++ t
display decimal (invalid_token t) = codes "invalid token: " ++ t
display decimal (invalid_request t) = codes "invalid request: " ++ t
display decimal (unknown_provider t) = codes "unknown provider: " ++ t
display decimal (access_denied t) = codes "access denied: " ++ t
display decimal (user_suspended t) = codes "user suspended: " ++ t
display decimal (unauthorized t) = codes "unauthorized: " ++ t
display decimal (conflict t) = codes "conflict: " ++ t
display decimal (not_found t) = codes "not found: " ++ t
display decimal (too_many_requests n) =
    codes "too many requests; retry after " ++ (decimal n ++ codes " seconds")
display decimal (provider_error p t) = codes "provider error (" ++ (p ++ (codes "): " ++ t))
display decimal (provider_timeout p) = codes "provider timeout: " ++ p
display decimal (store_error t) = codes "store error: " ++ t
display decimal (key_error t) = codes "key error: " ++ t
display decimal (audit_error t) = codes "audit error: " ++ t
display decimal (security_audit_durability t) =
    codes "mandatory security audit could not be persisted: " ++ t
display decimal (sync_error t) = codes "sync error: " ++ t
display decimal (config_error t) = codes "config error: " ++ t

-- The status, the OAuth error code and the description.
abbrev pub Mapped : Type 0
Mapped = ℕ × Text × Text

abbrev described : ℕ → Text → Error → Mapped
described status code e = (status, code, client_description e)

unfoldable pub map_domain_error_inner : Error → Mapped
map_domain_error_inner (invalid_grant t) = described 400 (codes "invalid_grant") (invalid_grant t)
map_domain_error_inner (invalid_token t) = described 401 (codes "invalid_token") (invalid_token t)
map_domain_error_inner (invalid_request reason) = (400, codes "invalid_request", reason)
map_domain_error_inner (unknown_provider t) =
    described 400 (codes "invalid_request") (unknown_provider t)
map_domain_error_inner (access_denied t) = described 403 (codes "access_denied") (access_denied t)
map_domain_error_inner (user_suspended t) = described 403 (codes "access_denied") (user_suspended t)
map_domain_error_inner (unauthorized t) = described 401 (codes "unauthorized") (unauthorized t)
map_domain_error_inner (conflict t) = described 409 (codes "conflict") (conflict t)
map_domain_error_inner (not_found t) = described 404 (codes "not_found") (not_found t)
map_domain_error_inner (too_many_requests n) =
    (429, codes "slow_down", codes "too many authentication attempts")
map_domain_error_inner (provider_error p t) =
    described 502 (codes "server_error") (provider_error p t)
map_domain_error_inner (provider_timeout p) =
    described 504 (codes "server_error") (provider_timeout p)
map_domain_error_inner e = described 500 (codes "server_error") e

-- The arms of `oauth_error_response`, past which it is `unreachable!`.
abbrev pub closed_codes : List Text
closed_codes =
    codes "invalid_request"
    ∷ codes "invalid_grant"
    ∷ codes "invalid_token"
    ∷ codes "unsupported_grant_type"
    ∷ codes "access_denied"
    ∷ codes "not_found"
    ∷ codes "conflict"
    ∷ codes "server_error"
    ∷ codes "slow_down"
    ∷ []

unfoldable pub oauth_error_response : ℕ → ErrorResponse → Text → Result Response
oauth_error_response status body error_code =
    if member error_code closed_codes
    then ok
        (record { status = status; body = body; rendered_code = error_code; retry_after = none })
    else panicked

abbrev pub retry_after_of : Error → Option ℕ
retry_after_of (too_many_requests n) = some (max n 1)
retry_after_of _ = none

-- The answer to an error; `decimal` prints a number.
unfoldable pub into_response : (ℕ → Text) → ApiError → Result Response
into_response decimal unsupported_grant_type =
    oauth_error_response 400
      (record {
        error = codes "unsupported_grant_type";
        error_description = codes "The grant_type parameter is not supported";
      })
      (codes "unsupported_grant_type")
into_response decimal (domain e) =
    let (status, error_code, description) = map_domain_error_inner e in
    assert (not (text_eq description (display decimal e)))
    >> (oauth_error_response status (record { error = error_code; error_description = description })
          error_code
        >>= λ r. ok (record r { retry_after = retry_after_of e }))

-- The error without its diagnostics. The reason of an invalid request is published, and the hint of
-- a throttled one.
abbrev pub redact : Error → Error
redact (invalid_grant _) = invalid_grant []
redact (invalid_token _) = invalid_token []
redact (invalid_request t) = invalid_request t
redact (unknown_provider _) = unknown_provider []
redact (access_denied _) = access_denied []
redact (user_suspended _) = user_suspended []
redact (unauthorized _) = unauthorized []
redact (conflict _) = conflict []
redact (not_found _) = not_found []
redact (too_many_requests n) = too_many_requests n
redact (provider_error _ _) = provider_error [] []
redact (provider_timeout _) = provider_timeout []
redact _ = store_error []

reason_apart : (t : Text) → text_eq t (codes "invalid request: " ++ t) ≡ false
reason_apart t = elim (Bool-cases (text_eq t (codes "invalid request: " ++ t))) [
  | inr e ↦ e
  | inl e ↦ absurd (
      omega (
        arith,
        ap (λ (u : Text). length u) ((text_eq_iff t (codes "invalid request: " ++ t)).0 e),
        length-append (codes "invalid request: ") t,
      ))
]

invalid_request-run :
    (decimal : ℕ → Text) (t : Text)
    → into_response decimal (domain (invalid_request t))
      ≡ ok (record {
        status = 400;
        body = record { error = codes "invalid_request"; error_description = t };
        rendered_code = codes "invalid_request";
        retry_after = none;
      })
unfolding into_response map_domain_error_inner oauth_error_response display member text_eq
invalid_request-run decimal t = rw (reason_apart t) refl

into_response-redacted :
    (decimal : ℕ → Text) (e : Error)
    → into_response decimal (domain e) ≡ into_response decimal (domain (redact e))
unfolding into_response map_domain_error_inner oauth_error_response display client_description
    member text_eq
into_response-redacted decimal (invalid_grant t) = refl
into_response-redacted decimal (invalid_token t) = refl
into_response-redacted decimal (invalid_request t) = refl
into_response-redacted decimal (unknown_provider t) = refl
into_response-redacted decimal (access_denied t) = refl
into_response-redacted decimal (user_suspended t) = refl
into_response-redacted decimal (unauthorized t) = refl
into_response-redacted decimal (conflict t) = refl
into_response-redacted decimal (not_found t) = refl
into_response-redacted decimal (too_many_requests n) = refl
into_response-redacted decimal (provider_error p t) = refl
into_response-redacted decimal (provider_timeout p) = refl
into_response-redacted decimal (store_error t) = refl
into_response-redacted decimal (key_error t) = refl
into_response-redacted decimal (audit_error t) = refl
into_response-redacted decimal (security_audit_durability t) = refl
into_response-redacted decimal (sync_error t) = refl
into_response-redacted decimal (config_error t) = refl

-- Every error but one is answered.
answered :
    (decimal : ℕ → Text) (e : Error)
    → ((r : Response) × (into_response decimal (domain e) ≡ ok r)
        × (r.retry_after ≡ retry_after_of e))
      ⊎ ((t : Text) × (e ≡ unauthorized t) × (into_response decimal (domain e) ≡ panicked))
unfolding into_response map_domain_error_inner oauth_error_response display client_description
    member text_eq
answered decimal (invalid_grant t) = inl (_, refl, refl)
answered decimal (invalid_token t) = inl (_, refl, refl)
answered decimal (invalid_request t) = inl (_, invalid_request-run decimal t, refl)
answered decimal (unknown_provider t) = inl (_, refl, refl)
answered decimal (access_denied t) = inl (_, refl, refl)
answered decimal (user_suspended t) = inl (_, refl, refl)
answered decimal (unauthorized t) = inr (t, refl, refl)
answered decimal (conflict t) = inl (_, refl, refl)
answered decimal (not_found t) = inl (_, refl, refl)
answered decimal (too_many_requests n) = inl (_, refl, refl)
answered decimal (provider_error p t) = inl (_, refl, refl)
answered decimal (provider_timeout p) = inl (_, refl, refl)
answered decimal (store_error t) = inl (_, refl, refl)
answered decimal (key_error t) = inl (_, refl, refl)
answered decimal (audit_error t) = inl (_, refl, refl)
answered decimal (security_audit_durability t) = inl (_, refl, refl)
answered decimal (sync_error t) = inl (_, refl, refl)
answered decimal (config_error t) = inl (_, refl, refl)

unauthorized-panics :
    (decimal : ℕ → Text) (t : Text) → into_response decimal (domain (unauthorized t)) ≡ panicked
unfolding into_response map_domain_error_inner oauth_error_response display client_description
    member text_eq
unauthorized-panics decimal t = refl

answered_ok :
    (decimal : ℕ → Text) (e : Error) (r : Response) (t : Text)
    → into_response decimal (domain e) ≡ ok r
    → e ≡ unauthorized t
    → ⊥
answered_ok decimal e r t h u =
    cc (h, ap (λ (x : Error). into_response decimal (domain x)) u, unauthorized-panics decimal t)

-- The answer to an error is the one to the error without its diagnostics, but for the reason of an
-- invalid request and the hint of a throttled one, whatever prints a number; and rendering it panics
-- for `unauthorized`, and for no other error.
pub into_response-redact :
    (decimal : ℕ → Text) (e : Error)
    → (into_response decimal (domain e) ≡ into_response decimal (domain (redact e)))
      × ((into_response decimal (domain e) ≡ panicked) ↔ ((t : Text) × (e ≡ unauthorized t)))
into_response-redact decimal e = (
  into_response-redacted decimal e,
  elim (answered decimal e) [
    | inl (r, h, q) ↦ (λ p. cc, λ (t, u). absurd (answered_ok decimal e r t h u))
    | inr (t, u, h) ↦ (λ p. (t, u), λ x. h)
  ],
)
