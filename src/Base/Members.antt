-- ===== src/Base/Members.antt =====
-- Lists of texts without repetition.
use mathlib.Core.Path.{◌≡◌, refl}
use mathlib.Core.Logic.{◌≢◌}
use mathlib.Core.Bool.{Bool, true, false, ◌||◌}
use mathlib.Core.List.{List, [], ◌∷◌}
use native.Mathlib.Omega.{arith}
use oidc_exchange.Base.Bytes.{Text, text_eq, text_eq_iff}

unfoldable pub member : Text → List Text → Bool
member a [] = false
member a (x ∷ xs) = text_eq a x || member a xs

abbrev pub Nodup : List Text → Type 0
Nodup [] = Unit
Nodup (x ∷ xs) = (member x xs ≡ false) × Nodup xs

pub member-head : (a x : Text) (xs : List Text) → a ≡ x → member a (x ∷ xs) ≡ true
unfolding member
member-head a x xs e = ground (arith, text_eq_iff a x)

pub member-tail : (a x : Text) (xs : List Text) → member a xs ≡ true → member a (x ∷ xs) ≡ true
unfolding member
member-tail a x xs e = ground arith

-- No other member of the rest is the head.
pub member_ne : (a x : Text) (xs : List Text) → member x xs ≡ false → member a xs ≡ true → a ≢ x
member_ne a x xs n m e = cc

pub member-cons_false :
    (a x : Text) (xs : List Text) → member a (x ∷ xs) ≡ false → (a ≢ x) × (member a xs ≡ false)
unfolding member
member-cons_false a x xs h = (ground (arith, text_eq_iff a x), ground arith)

pub member-cons_true :
    (a x : Text) (xs : List Text) → member a (x ∷ xs) ≡ true → a ≢ x → member a xs ≡ true
unfolding member
member-cons_true a x xs h n = ground (arith, text_eq_iff a x)

pub member-cons_head :
    (a x : Text) (xs : List Text) → member a (x ∷ xs) ≡ true → member a xs ≡ false → a ≡ x
unfolding member
member-cons_head a x xs h n = ground (arith, text_eq_iff a x)

pub member-nil : (a : Text) → member a [] ≡ false
unfolding member
member-nil a = refl
