-- ===== src/Tests/Responses.antt =====
-- The answers to an error of the store and to the one that cannot be rendered.
use oidc_exchange.Base.{ℕ, ◌≡◌, ◌↔◌, [], ◌∷◌, Text, codes}
use oidc_exchange.Error.{store_error, unauthorized, panicked}
use oidc_exchange.Server.ApiError.{into_response, domain, redact, into_response-redact}

abbrev decimal : ℕ → Text
decimal n = n ∷ []

into_response-redact_example :
    (into_response decimal (domain (store_error (codes "disk full")))
      ≡ into_response decimal (domain (redact (store_error (codes "disk full")))))
    × ((into_response decimal (domain (store_error (codes "disk full"))) ≡ panicked)
        ↔ ((t : Text) × (store_error (codes "disk full") ≡ unauthorized t)))
into_response-redact_example = into_response-redact decimal (store_error (codes "disk full"))
