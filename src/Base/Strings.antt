-- ===== src/Base/Strings.antt =====
-- `str` of `std` on texts: `split`, `trim`, `u64::from_str`.
use Prim.Native.Nat.{ℕ}
use mathlib.Core.Path.{◌≡◌, refl}
use mathlib.Core.Bool.{Bool, false, ◌&&◌, ◌||◌}
use mathlib.Core.Option.{Option, none, some}
use mathlib.Core.List.{List, [], ◌∷◌, ◌++◌}
use native.Mathlib.Omega.{arith}
use oidc_exchange.Base.Tests.{leb, ◌==◌, if◌then◌else◌}
use oidc_exchange.Base.Bytes.{Text, is_empty}
use oidc_exchange.Base.Separator.{has_char}

unfoldable pub push_char : ℕ → List Text → List Text
push_char x [] = (x ∷ []) ∷ []
push_char x (s ∷ ss) = (x ∷ s) ∷ ss

-- `split` at each occurrence of a character.
unfoldable pub split : ℕ → Text → List Text
unfolding push_char
split c [] = [] ∷ []
split c (x ∷ t) = let rest = split c t in if x == c then [] ∷ rest else push_char x rest

pub split-separated :
    (c : ℕ) (a b : Text) → has_char c a ≡ false → split c (a ++ c ∷ b) ≡ a ∷ split c b
unfolding split has_char
split-separated c [] b h = ground arith
split-separated c (x ∷ a) b h = ground (arith, split-separated c a b)

pub split-whole : (c : ℕ) (a : Text) → has_char c a ≡ false → split c a ≡ a ∷ []
unfolding split has_char
split-whole c [] h = refl
split-whole c (x ∷ a) h = ground (arith, split-whole c a)

-- `char::is_whitespace`: the property White_Space.
unfoldable pub is_whitespace : ℕ → Bool
is_whitespace c =
    (leb 9 c && leb c 13)
    || (c == 32)
    || (c == 133)
    || (c == 160)
    || (c == 5760)
    || (leb 8192 c && leb c 8202)
    || (c == 8232)
    || (c == 8233)
    || (c == 8239)
    || (c == 8287)
    || (c == 12288)

unfoldable pub trim_start : Text → Text
trim_start [] = []
trim_start (c ∷ t) = if is_whitespace c then trim_start t else c ∷ t

unfoldable pub keep_end : ℕ → Text → Text
keep_end c t = if is_whitespace c && is_empty t then [] else c ∷ t

unfoldable pub trim_end : Text → Text
unfolding keep_end
trim_end [] = []
trim_end (c ∷ t) = keep_end c (trim_end t)

unfoldable pub trim : Text → Text
unfolding trim_start trim_end
trim t = trim_end (trim_start t)

-- `trim().is_empty()`
unfoldable pub is_blank : Text → Bool
unfolding trim
is_blank t = is_empty (trim t)

-- A text without its last character, and that character.
unfoldable pub last_of : Text → Option (Text × ℕ)
last_of [] = none
last_of (x ∷ t) = elim (last_of t) [ none ↦ some ([], x) | some (a, y) ↦ some (x ∷ a, y) ]

pub last_of-append : (a : Text) (c : ℕ) → last_of (a ++ c ∷ []) ≡ some (a, c)
unfolding last_of
last_of-append [] c = refl
last_of-append (x ∷ a) c = ground (arith, last_of-append a c)

trim_end-append :
    (a : Text) (c : ℕ) → is_whitespace c ≡ false → trim_end (a ++ c ∷ []) ≡ a ++ c ∷ []
unfolding trim_end is_empty
trim_end-append [] c h = ground (arith, h)
trim_end-append (x ∷ []) c h = ground (arith, h)
trim_end-append (x ∷ y ∷ a) c h = ground (arith, trim_end-append (y ∷ a) c h)

-- A text that starts and ends with no whitespace is its own trim.
pub trim-append :
    (x : ℕ) (a : Text) (c : ℕ)
    → is_whitespace x ≡ false
    → is_whitespace c ≡ false
    → trim (x ∷ a ++ c ∷ []) ≡ x ∷ a ++ c ∷ []
unfolding trim
trim-append x a c hx hc = ground (arith, hx, trim_end-append (x ∷ a) c hc)
