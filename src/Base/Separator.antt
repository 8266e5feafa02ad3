-- ===== src/Base/Separator.antt =====
-- Composite keys `a ++ separator ∷ b`, where the separator cannot stand in `a`.
use Prim.Native.Nat.{ℕ}
use mathlib.Core.Path.{◌≡◌, refl, ap}
use mathlib.Core.Bool.{Bool, false, ◌||◌}
use mathlib.Core.List.{[], ◌∷◌, ◌++◌}
use native.Mathlib.Omega.{arith}
use oidc_exchange.Base.Tests.{◌==◌}
use oidc_exchange.Base.Bytes.{Text}

-- `str::contains` of one character.
unfoldable pub has_char : ℕ → Text → Bool
has_char c [] = false
has_char c (x ∷ t) = (x == c) || has_char c t

abbrev head_of : Text → ℕ
head_of [] = 0
head_of (x ∷ t) = x

abbrev tail_of : Text → Text
tail_of [] = []
tail_of (x ∷ t) = t

-- With no separator in the first parts, composite keys agree only part by part.
pub separated-injective :
    (c : ℕ) (a b x y : Text)
    → has_char c a ≡ false
    → has_char c b ≡ false
    → a ++ c ∷ x ≡ b ++ c ∷ y
    → (a ≡ b) × (x ≡ y)
unfolding has_char
separated-injective c [] [] x y ha hb e = (refl, ap tail_of e)
separated-injective c [] (b ∷ bs) x y ha hb e = absurd (ground (arith, ap head_of e))
separated-injective c (a ∷ as') [] x y ha hb e = absurd (ground (arith, ap head_of e))
separated-injective c (a ∷ as') (b ∷ bs) x y ha hb e =
    ground (arith, ap head_of e, ap tail_of e, separated-injective c as' bs x y _ _ (ap tail_of e))
