-- ===== src/Base/Keyed.antt =====
-- A hash map as the list of its entries. `std` leaves the order of iteration open; here the newest
-- key comes first.
use Prim.Native.Nat.{◌+◌, ◌≤◌}
use mathlib.Core.Path.{◌≡◌, refl, sym, ap, ◌∙◌}
use mathlib.Core.Logic.{◌↔◌, ◌≢◌, inl, inr}
use mathlib.Core.Bool.{Bool, true}
use mathlib.Core.Option.{Option, none, some}
use mathlib.Core.List.{List, [], ◌∷◌}
use native.Mathlib.Omega.{arith}
use oidc_exchange.Base.Tests.{if◌then◌else◌, Bool-cases}
use oidc_exchange.Base.Bytes.{Text, text_eq, text_eq_iff}
use oidc_exchange.Base.Lists.{length, keep}

-- `Eq` of `std`.
pub record Eq {ℓ} (A : Type ℓ) : Type ℓ where
  pub beq : A → A → Bool
  pub beq_iff : (a b : A) → (beq a b ≡ true) ↔ (a ≡ b)

instance abbrev pub text_Eq : Eq Text
text_Eq = record { beq = text_eq; beq_iff = text_eq_iff }

module _ {K V : Type 0} ⦃e : Eq K⦄ where
  unfoldable pub find : K → List (K × V) → Option V
  find k [] = none
  find k ((j, v) ∷ m) = if e.beq k j then some v else find k m

  unfoldable pub remove : K → List (K × V) → List (K × V)
  remove k [] = []
  remove k ((j, v) ∷ m) = let rest = remove k m in if e.beq k j then rest else (j, v) ∷ rest

  -- A write to a key that is there.
  unfoldable pub write : K → V → List (K × V) → List (K × V)
  write k v [] = []
  write k v ((j, w) ∷ m) = let rest = write k v m in if e.beq k j then (j, v) ∷ m else (j, w) ∷ rest

  pub find-remove :
      (k j : K) (m : List (K × V)) → find j (remove k m) ≡ (if e.beq j k then none else find j m)
  unfolding find remove
  find-remove k j [] = ground arith
  find-remove k j ((i, w) ∷ m) =
      ground (arith, find-remove k j m, e.beq_iff k i, e.beq_iff j i, e.beq_iff j k)

  pub find-write_self :
      (k : K) (v w : V) (m : List (K × V)) → find k m ≡ some w → find k (write k v m) ≡ some v
  unfolding find write
  find-write_self k v w [] h = cc
  find-write_self k v w ((j, u) ∷ m) h = ground (arith, find-write_self k v w m)

  pub find-write_ne : (k j : K) (v : V) (m : List (K × V)) → j ≢ k → find j (write k v m) ≡ find j m
  unfolding find write
  find-write_ne k j v [] n = refl
  find-write_ne k j v ((i, u) ∷ m) n =
      ground (arith, find-write_ne k j v m n, e.beq_iff k i, e.beq_iff j i)

  pub length-write : (k : K) (v : V) (m : List (K × V)) → length (write k v m) ≡ length m
  unfolding write
  length-write k v [] = refl
  length-write k v ((j, u) ∷ m) = ground (arith, length-write k v m)

  pub length-remove : (k : K) (m : List (K × V)) → length (remove k m) ≤ length m
  unfolding remove
  length-remove k [] = omega arith
  length-remove k ((j, v) ∷ m) = ground (arith, length-remove k m)

  -- Removing a key that is there makes the map smaller.
  pub length-remove_lt :
      (k : K) (v : V) (m : List (K × V)) → find k m ≡ some v → length (remove k m) + 1 ≤ length m
  unfolding remove find
  length-remove_lt k v [] h = cc
  length-remove_lt k v ((j, w) ∷ m) h = ground (arith, length-remove_lt k v m, length-remove k m)

  -- `retain` keeps an entry that passes, and brings no new one.
  pub find-keep :
      (p : K × V → Bool) (k : K) (v : V) (m : List (K × V))
      → find k m ≡ some v
      → p (k, v) ≡ true
      → find k (keep p m) ≡ some v
  unfolding find keep
  find-keep p k v [] h q = cc
  find-keep p k v ((j, w) ∷ m) h q = elim (Bool-cases (e.beq k j)) [
    | inl y ↦
        (let same : j ≡ k = sym ((e.beq_iff k j).0 y) in
          let head : w ≡ v = ground (arith, y, h) in
          let kept : p (j, w) ≡ true = ap (λ i. p (i, w)) same ∙ ap (λ u. p (k, u)) head ∙ q in
          ground (arith, y, kept))
    | inr n ↦ ground (arith, n, h, find-keep p k v m, Bool-cases (p (j, w)))
  ]

  pub find-keep-none :
      (p : K × V → Bool) (k : K) (m : List (K × V)) → find k m ≡ none → find k (keep p m) ≡ none
  unfolding find keep
  find-keep-none p k [] h = refl
  find-keep-none p k ((j, w) ∷ m) h = ground (arith, find-keep-none p k m, Bool-cases (p (j, w)))
