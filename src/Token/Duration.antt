-- ===== src/Token/Duration.antt =====
-- crates/core/src/service/mod.rs: durations such as `15m` in seconds.
use oidc_exchange.Base.{
  ℕ, ◌+◌, ◌-◌, ◌*◌, ◌^◌, ◌<◌, ◌≡◌, Bool, true, false, ◌&&◌, Option, none, some, [], ◌∷◌, ◌++◌, Text,
  codes, ltb, leb, ◌==◌, if◌then◌else◌, is_whitespace, trim, trim-append, last_of, last_of-append,
  Option-cases, Bool-cases, inl, inr, arith, All, ◌↔◌,
}
use oidc_exchange.Error.{Result, ok, err, config_error}

abbrev is_digit : ℕ → Bool
is_digit c = leb 48 c && leb c 57

-- Digits after those that were read, each step checked.
unfoldable pub digits : ℕ → Text → Option ℕ
digits acc [] = some acc
digits acc (c ∷ t) =
    let next = acc * 10 + (c - 48) in
    let rest = digits next t in if is_digit c && ltb next (2 ^ 64) then rest else none

-- `u64::from_str`
unfoldable pub parse_u64 : Text → Option ℕ
unfolding digits
parse_u64 [] = none
parse_u64 (c ∷ []) = digits 0 (c ∷ [])
parse_u64 (c ∷ d ∷ t) = if c == 43 then digits 0 (d ∷ t) else digits 0 (c ∷ d ∷ t)

unfoldable pub seconds_per : ℕ → Option ℕ
seconds_per suffix =
    if suffix == 115
    then some 1
    else if suffix == 109
    then some 60
    else if suffix == 104
    then some 3600
    else if suffix == 100
    then some 86400
    else none

-- `checked_mul`
abbrev pub checked_mul : ℕ → ℕ → Option ℕ
checked_mul a b = if ltb (a * b) (2 ^ 64) then some (a * b) else none

module _ (debug : Text → Text) where
  -- `debug` is the format `{:?}` of a text.
  unfoldable pub in_seconds : Text → Text → ℕ → ℕ → Result ℕ
  in_seconds s num_str value suffix = elim (seconds_per suffix) [
    | none ↦
        err (
          config_error
            (codes "unknown duration suffix in " ++ debug s ++ codes ": " ++ suffix ∷ []))
    | some factor ↦ elim (checked_mul value factor) [
      | none ↦
          err (config_error (codes "duration value overflows seconds when parsing " ++ debug s))
      | some secs ↦ ok secs
    ]
  ]

  -- The assertions on the split hold by construction.
  unfoldable pub parse_trimmed : Text → Result ℕ
  unfolding in_seconds
  parse_trimmed s = elim (last_of s) [
    | none ↦ err (config_error (codes "empty duration string"))
    | some (num_str, suffix) ↦ elim (parse_u64 num_str) [
      | none ↦
          err
            (config_error (codes "invalid duration number in " ++ debug s ++ codes ": " ++ num_str))
      | some value ↦ in_seconds s num_str value suffix
    ]
  ]

  unfoldable pub parse_duration_secs : Text → Result ℕ
  unfolding parse_trimmed
  parse_duration_secs s = parse_trimmed (trim s)

-- What digits denote, with no bound.
abbrev pub value_after : ℕ → Text → ℕ
value_after acc [] = acc
value_after acc (c ∷ t) = value_after (acc * 10 + (c - 48)) t

abbrev pub Digits : Text → Type 0
Digits t = All (λ (c : ℕ). is_digit c ≡ true) t

digits-bound : (acc : ℕ) (t : Text) (n : ℕ) → acc < 2 ^ 64 → digits acc t ≡ some n → n < 2 ^ 64
unfolding digits
digits-bound acc [] n b e = ground (arith, b, e)
digits-bound acc (c ∷ t) n b e = ground (arith, e, digits-bound (acc * 10 + (c - 48)) t n)

value_after-grows : (acc : ℕ) (t : Text) → ltb (value_after acc t) acc ≡ false
value_after-grows acc [] = ground arith
value_after-grows acc (c ∷ t) = ground (arith, value_after-grows (acc * 10 + (c - 48)) t)

digits-value :
    (acc : ℕ) (t : Text)
    → acc < 2 ^ 64
    → Digits t
    → digits acc t ≡ (if ltb (value_after acc t) (2 ^ 64) then some (value_after acc t) else none)
unfolding digits
digits-value acc [] b d = ground (arith, b)
digits-value acc (c ∷ t) b (d, ds) = ground (
  arith,
  d,
  value_after-grows (acc * 10 + (c - 48)) t,
  Bool-cases (ltb (acc * 10 + (c - 48)) (2 ^ 64)),
  digits-value (acc * 10 + (c - 48)) t _ ds,
)

parse_u64-value :
    (c : ℕ) (t : Text)
    → Digits (c ∷ t)
    → parse_u64 (c ∷ t)
      ≡ (if ltb (value_after 0 (c ∷ t)) (2 ^ 64) then some (value_after 0 (c ∷ t)) else none)
unfolding parse_u64
parse_u64-value c [] d = digits-value 0 (c ∷ []) (ground arith) d
parse_u64-value c (e ∷ t) d = ground (arith, d.0, digits-value 0 (c ∷ e ∷ t) _ d)

is_digit-whitespace : (c : ℕ) → is_digit c ≡ true → is_whitespace c ≡ false
unfolding is_whitespace
is_digit-whitespace c h = ground (arith, h)

unit-whitespace : (c factor : ℕ) → seconds_per c ≡ some factor → is_whitespace c ≡ false
unfolding is_whitespace seconds_per
unit-whitespace c factor h = ground (arith, h)

-- The factor of a unit is one of four.
one_of_four :
    (v suffix factor n : ℕ)
    → seconds_per suffix ≡ some factor
    → ((if ltb v (2 ^ 64) then checked_mul v factor else none) ≡ some n)
      ↔ ((n ≡ v * factor) × (n < 2 ^ 64))
unfolding seconds_per
one_of_four v suffix factor n u = ground (arith, u)

module _ (debug : Text → Text) where
  -- The steps of the parse, once the text is split.
  split-run :
      (s num_str : Text) (suffix factor n : ℕ)
      → trim s ≡ s
      → last_of s ≡ some (num_str, suffix)
      → seconds_per suffix ≡ some factor
      → (parse_duration_secs debug s ≡ ok n)
        ↔ (elim (parse_u64 num_str) [ none ↦ none | some v ↦ checked_mul v factor ] ≡ some n)
  unfolding parse_duration_secs parse_trimmed in_seconds
  split-run s num_str suffix factor n e l u =
      ground (arith, e, l, u, Option-cases (parse_u64 num_str))

  -- Digits before the suffix of a unit are read as the number they denote, times the unit, exactly
  -- when the number and the product fit 64 bits. Any other number of seconds is an error, not a
  -- wrapped number.
  pub parse_duration_secs-Digits :
      (c : ℕ) (t : Text) (suffix factor n : ℕ)
      → Digits (c ∷ t)
      → seconds_per suffix ≡ some factor
      → (parse_duration_secs debug (c ∷ t ++ suffix ∷ []) ≡ ok n)
        ↔ ((n ≡ value_after 0 (c ∷ t) * factor) × (n < 2 ^ 64))
  parse_duration_secs-Digits c t suffix factor n d u =
      let s = c ∷ t ++ suffix ∷ [] in
      let blank =
        trim-append c t suffix (is_digit-whitespace c d.0) (unit-whitespace suffix factor u) in
      ground (
        arith,
        split-run s (c ∷ t) suffix factor n blank (last_of-append (c ∷ t) suffix) u,
        parse_u64-value c t d,
        one_of_four (value_after 0 (c ∷ t)) suffix factor n u,
      )

  -- Every answer fits 64 bits, whatever the text.
  pub parse_duration_secs-bound :
      (s : Text) (n : ℕ) → parse_duration_secs debug s ≡ ok n → n < 2 ^ 64
  unfolding parse_duration_secs parse_trimmed in_seconds
  parse_duration_secs-bound s n e = elim (Option-cases (last_of (trim s))) [
    | inl h ↦ absurd (ground (arith, e, h))
    | inr (p, h) ↦ elim (Option-cases (parse_u64 p.0)) [
      | inl g ↦ absurd (ground (arith, e, h, g))
      | inr (v, g) ↦ elim (Option-cases (seconds_per p.1)) [
        | inl k ↦ absurd (ground (arith, e, h, g, k))
        | inr (f, k) ↦ ground (arith, e, h, g, k)
      ]
    ]
  ]
