-- ===== src/Token/Segments.antt =====
-- crates/core/src/service/mod.rs: the three segments of a compact token.
use oidc_exchange.Base.{
  ℕ, ◌≡◌, refl, sym, ap, ◌∙◌, Bool, true, false, List, [], ◌∷◌, ◌++◌, Text, is_empty, has_char,
  split, push_char, split-separated, split-whole, ◌==◌, if◌then◌else◌, arith, ◌↔◌,
}
use oidc_exchange.Token.{accepted, three_segments, split_jws_segments}

-- Segments that a token can be made of: without a dot, and not empty.
pub record Segment (t : Text) : Type 0 where
  pub no_dot : has_char 46 t ≡ false
  pub full : is_empty t ≡ false

abbrev pub compact : Text → Text → Text → Text
compact h p s = h ++ 46 ∷ (p ++ 46 ∷ s)

pub split-compact :
    (h p s : Text)
    → Segment h
    → Segment p
    → Segment s
    → split_jws_segments (compact h p s) ≡ accepted (h, p, s)
unfolding split_jws_segments three_segments
split-compact h p s a b c =
    ap three_segments (
      split-separated 46 h (p ++ 46 ∷ s) a.no_dot
      ∙ ap (λ r. h ∷ r) (split-separated 46 p s b.no_dot)
      ∙ ap (λ r. h ∷ p ∷ r) (split-whole 46 s c.no_dot))
    ∙ ground (arith, a.full, b.full, c.full)

-- The segments, joined by dots again.
abbrev pub rejoin : List Text → Text
rejoin [] = []
rejoin (s ∷ []) = s
rejoin (s ∷ t ∷ ss) = s ++ 46 ∷ rejoin (t ∷ ss)

-- There is a segment, and none has a dot.
abbrev Dotless : List Text → Type 0
Dotless [] = ⊥
Dotless (s ∷ []) = has_char 46 s ≡ false
Dotless (s ∷ t ∷ ss) = (has_char 46 s ≡ false) × Dotless (t ∷ ss)

push_char-Dotless :
    (x : ℕ) (ss : List Text)
    → (x == 46) ≡ false
    → Dotless ss
    → Dotless (push_char x ss) × (rejoin (push_char x ss) ≡ x ∷ rejoin ss)
unfolding push_char has_char
push_char-Dotless x [] n d = elim d [ ]
push_char-Dotless x (s ∷ []) n d = ground (arith, n, d)
push_char-Dotless x (s ∷ t ∷ ss) n d = (ground (arith, n, d), refl)

cons-Dotless :
    (ss : List Text) → Dotless ss → Dotless ([] ∷ ss) × (rejoin ([] ∷ ss) ≡ 46 ∷ rejoin ss)
unfolding has_char
cons-Dotless [] d = elim d [ ]
cons-Dotless (s ∷ ss) d = ((refl, d), refl)

abbrev Split : Text → List Text → Type 0
Split t ss = Dotless ss × (rejoin ss ≡ t)

Split-cons :
    (x : ℕ) (t : Text) (ss : List Text) (b : Bool)
    → Split t ss
    → (x == 46) ≡ b
    → Split (x ∷ t) (if b then [] ∷ ss else push_char x ss)
Split-cons x t ss true (d, e) dot =
    ((cons-Dotless ss d).0, (cons-Dotless ss d).1 ∙ ground (arith, e, dot))
Split-cons x t ss false (d, e) n =
    ((push_char-Dotless x ss n d).0, (push_char-Dotless x ss n d).1 ∙ ap (λ r. x ∷ r) e)

split-Split : (t : Text) → Split t (split 46 t)
unfolding split has_char
split-Split [] = (refl, refl)
split-Split (x ∷ t) = Split-cons x t (split 46 t) (x == 46) (split-Split t) refl

three_segments-accepted :
    (t h p s : Text) (ss : List Text)
    → Split t ss
    → three_segments ss ≡ accepted (h, p, s)
    → (t ≡ compact h p s) × Segment h × Segment p × Segment s
unfolding three_segments
three_segments-accepted t h p s [] d e = cc
three_segments-accepted t h p s (a ∷ []) d e = cc
three_segments-accepted t h p s (a ∷ b ∷ []) d e = cc
three_segments-accepted t h p s (a ∷ b ∷ c ∷ d' ∷ ss) d e = cc
three_segments-accepted t h p s (a ∷ b ∷ c ∷ []) ((da, (db, dc)), j) e =
    let first : a ≡ h = ground (arith, e) in
    let second : b ≡ p = ground (arith, e) in
    let third : c ≡ s = ground (arith, e) in
    (
      sym j ∙ ground (arith, first, second, third),
      record { no_dot = ground (arith, da, first); full = ground (arith, e) },
      record { no_dot = ground (arith, db, second); full = ground (arith, e) },
      record { no_dot = ground (arith, dc, third); full = ground (arith, e) },
    )

-- A token is accepted as three segments exactly when it is those segments with a dot between them,
-- none of them empty and none with a dot.
pub split_jws_segments_iff :
    (t h p s : Text)
    → (split_jws_segments t ≡ accepted (h, p, s))
      ↔ ((t ≡ compact h p s) × Segment h × Segment p × Segment s)
unfolding split_jws_segments
split_jws_segments_iff t h p s = (
  three_segments-accepted t h p s (split 46 t) (split-Split t),
  λ x. ap split_jws_segments x.0 ∙ split-compact h p s x.1 x.2 x.3,
)
