-- ===== src/Token/Window.antt =====
-- crates/core/src/service/mod.rs: which claims are accepted, and when.
use oidc_exchange.Base.{
  ℕ, ◌+◌, ◌<◌, ◌≤◌, ◌^◌, ◌≡◌, refl, ◌↔◌, false, Option, none, some, Text, text_eq_iff, is_empty,
  is_blank, arith, [], ◌∷◌, Option-cases, Bool-cases,
}
use oidc_exchange.Token.{
  AccessTokenClaims, Codec, TokenConfig, accepted, on_accepted, or_rejected, check_window,
  check_claims, clock_skew_secs,
}

-- No later than `now`, where there is a date.
abbrev pub Begun : Option ℕ → ℕ → Type 0
Begun none now = Unit
Begun (some n) now = n ≤ now + clock_skew_secs

-- The window of the claims is open, and the subject and the session are named.
pub record Valid (claims : AccessTokenClaims) (nbf : Option ℕ) (now_secs : ℕ) : Type 0 where
  pub not_expired : now_secs ≤ claims.exp + clock_skew_secs
  pub issued : claims.iat ≤ now_secs + clock_skew_secs
  pub begun : Begun nbf now_secs
  pub subject : is_blank claims.sub ≡ false
  pub session : is_blank claims.sid ≡ false

-- The numbers are those of `u64`.
abbrev pub InU64 : AccessTokenClaims → Option ℕ → ℕ → Type 0
InU64 claims nbf now_secs =
    (claims.exp < 2 ^ 64)
    × (claims.iat < 2 ^ 64)
    × (now_secs < 2 ^ 64)
    × elim nbf [ none ↦ Unit | some n ↦ n < 2 ^ 64 ]

check_window-to :
    (claims : AccessTokenClaims) (nbf : Option ℕ) (now_secs : ℕ)
    → InU64 claims nbf now_secs
    → check_window claims nbf now_secs ≡ accepted tt
    → Valid claims nbf now_secs
unfolding check_window
check_window-to claims none now_secs u e = record {
  not_expired = ground (arith, u, e);
  issued = ground (arith, u, e);
  begun = tt;
  subject = ground (arith, u, e);
  session = ground (arith, u, e);
}
check_window-to claims (some n) now_secs u e = record {
  not_expired = ground (arith, u, e);
  issued = ground (arith, u, e);
  begun = ground (arith, u, e);
  subject = ground (arith, u, e);
  session = ground (arith, u, e);
}

check_window-from :
    (claims : AccessTokenClaims) (nbf : Option ℕ) (now_secs : ℕ)
    → InU64 claims nbf now_secs
    → Valid claims nbf now_secs
    → check_window claims nbf now_secs ≡ accepted tt
unfolding check_window
check_window-from claims none now_secs u v =
    ground (arith, u, v.not_expired, v.issued, v.subject, v.session)
check_window-from claims (some n) now_secs u v =
    ground (arith, u, v.not_expired, v.issued, v.begun, v.subject, v.session)

-- With the issuer configured and `nbf` well formed, the claims are accepted exactly when they name
-- this service and its audience, a subject and a session, and the clock is in their window, give or
-- take the skew: for numbers of `u64` the saturation never changes the answer.
pub check_claims_iff :
    (codec : Codec) (claims : AccessTokenClaims) (payload_bytes : Text) (config : TokenConfig)
    (nbf : Option ℕ) (now_secs : ℕ)
    → is_empty config.issuer ≡ false
    → codec.not_before_from_slice payload_bytes ≡ some nbf
    → InU64 claims nbf now_secs
    → (check_claims codec claims payload_bytes config now_secs ≡ accepted tt)
      ↔ ((claims.iss ≡ config.issuer) × (claims.aud ≡ config.audience) × Valid claims nbf now_secs)
unfolding check_claims on_accepted or_rejected
check_claims_iff codec claims payload_bytes config nbf now_secs full read u =
    let iss = text_eq_iff claims.iss config.issuer in
    let aud = text_eq_iff claims.aud config.audience in
    (
      λ e. (
        ground (arith, e, iss, full),
        ground (arith, e, aud, full),
        check_window-to claims nbf now_secs u (ground (arith, e, iss, aud, full, read)),
      ),
      λ x.
          ground
            (arith, x.0, x.1, iss, aud, full, read, check_window-from claims nbf now_secs u x.2),
    )

is_blank-empty : (t : Text) → is_blank t ≡ false → is_empty t ≡ false
unfolding is_empty
is_blank-empty [] h = absurd (unfold is_blank in cc)
is_blank-empty (c ∷ t) h = refl

-- Accepted claims name a subject.
pub check_claims-subject :
    (codec : Codec) (claims : AccessTokenClaims) (payload_bytes : Text) (config : TokenConfig)
    (now_secs : ℕ)
    → check_claims codec claims payload_bytes config now_secs ≡ accepted tt
    → is_empty claims.sub ≡ false
unfolding check_claims check_window on_accepted or_rejected
check_claims-subject codec claims payload_bytes config now_secs e = is_blank-empty claims.sub (
    ground (
      arith,
      e,
      Option-cases (codec.not_before_from_slice payload_bytes),
      Bool-cases (is_blank claims.sub),
    ))
