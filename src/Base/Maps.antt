-- ===== src/Base/Maps.antt =====
-- A key-sorted store of texts, such as one named LMDB database: point reads and writes with their
-- laws, iteration, and iteration over a prefix.
use mathlib.Core.Path.{◌≡◌, refl, ap, sym, ◌∙◌}
use mathlib.Core.Logic.{◌⊎◌, ◌≢◌, inl, inr}
use mathlib.Core.Bool.{Bool, true, false}
use mathlib.Core.Option.{Option, none, some}
use mathlib.Core.List.{List, [], ◌∷◌, ◌++◌}
use native.Mathlib.Omega.{arith}
use oidc_exchange.Base.Tests.{if◌then◌else◌, Bool-cases}
use oidc_exchange.Base.Bytes.{
  Text, text_eq, text_eq_refl, text_eq_iff, text_lt, strip_prefix, strip_prefix-append,
  strip_prefix-some,
}

abbrev pub Database : Type 0 → Type 0
Database V = List (Text × V)

-- With one prefix, texts agree when what follows it does.
same_suffix : (p t j r : Text) → strip_prefix p j ≡ some r → (p ++ t ≡ j) → t ≡ r
same_suffix p t j r q e = cc (strip_prefix-append p t, ap (strip_prefix p) e)

none≢some : {V : Type 0} {v : V} → ◌≡◌ {A = Option V} none (some v) → ⊥
none≢some e = cc

module _ {V : Type 0} where
  unfoldable pub get : Text → Database V → Option V
  get k [] = none
  get k ((j, v) ∷ m) = if text_eq k j then some v else get k m

  unfoldable pub delete : Text → Database V → Database V
  delete k [] = []
  delete k ((j, w) ∷ m) = let rest = delete k m in if text_eq k j then rest else (j, w) ∷ rest

  -- The entry stands before the first greater key.
  place : Text → V → Database V → Database V
  place k v [] = (k, v) ∷ []
  place k v ((j, w) ∷ m) =
      let rest = place k v m in if text_lt k j then (k, v) ∷ (j, w) ∷ m else (j, w) ∷ rest

  unfoldable pub put : Text → V → Database V → Database V
  unfolding place delete
  put k v m = place k v (delete k m)

  unfoldable pub contains_key : Text → Database V → Bool
  unfolding get
  contains_key k m = elim (get k m) [ none ↦ false | some _ ↦ true ]

  abbrev met : Option Text → V → List (Text × V) → List (Text × V)
  met none w rest = rest
  met (some t) w rest = (t, w) ∷ rest

  -- The entries whose key has the prefix, each with what follows the prefix.
  unfoldable pub prefix_iter : Text → Database V → List (Text × V)
  prefix_iter p [] = []
  prefix_iter p ((j, w) ∷ m) = met (strip_prefix p j) w (prefix_iter p m)

  pub get-delete :
      (k j : Text) (m : Database V) → get j (delete k m) ≡ (if text_eq j k then none else get j m)
  unfolding get delete
  get-delete k j [] = ground arith
  get-delete k j ((i, w) ∷ m) =
      ground (arith, get-delete k j m, text_eq_iff k i, text_eq_iff j i, text_eq_iff j k)

  pub get-delete_self : (k : Text) (m : Database V) → get k (delete k m) ≡ none
  get-delete_self k m = ground (arith, get-delete k k m, text_eq_refl k)

  get-place :
      (k j : Text) (v : V) (m : Database V)
      → get k m ≡ none
      → get j (place k v m) ≡ (if text_eq j k then some v else get j m)
  unfolding get place
  get-place k j v [] h = refl
  get-place k j v ((i, w) ∷ m) h =
      ground (arith, get-place k j v m, text_eq_iff k i, text_eq_iff j i, text_eq_iff j k)

  pub get-put :
      (k j : Text) (v : V) (m : Database V)
      → get j (put k v m) ≡ (if text_eq j k then some v else get j m)
  unfolding put
  get-put k j v m =
      ground (
        arith,
        get-place k j v (delete k m) (get-delete_self k m),
        get-delete k j m,
        text_eq_iff j k,
      )

  pub get-put_self : (k : Text) (v : V) (m : Database V) → get k (put k v m) ≡ some v
  get-put_self k v m = ground (arith, get-put k k v m, text_eq_refl k)

  pub get-put_ne : (k j : Text) (v : V) (m : Database V) → j ≢ k → get j (put k v m) ≡ get j m
  get-put_ne k j v m n = ground (arith, get-put k j v m, text_eq_iff j k)

  pub get-put-some :
      (k j : Text) (v w : V) (m : Database V)
      → get j (put k v m) ≡ some w
      → ((j ≡ k) × (w ≡ v)) ⊎ ((j ≢ k) × (get j m ≡ some w))
  get-put-some k j v w m h = elim (Bool-cases (text_eq j k)) [
    | inl e ↦ inl ((text_eq_iff j k).0 e, ground (arith, get-put k j v m))
    | inr e ↦ inr (ground (arith, text_eq_iff j k), ground (arith, get-put k j v m))
  ]

  pub get-delete_ne : (k j : Text) (m : Database V) → j ≢ k → get j (delete k m) ≡ get j m
  get-delete_ne k j m n = ground (arith, get-delete k j m, text_eq_iff j k)

  pub get-delete-some :
      (k j : Text) (w : V) (m : Database V)
      → get j (delete k m) ≡ some w
      → (j ≢ k) × (get j m ≡ some w)
  get-delete-some k j w m h = elim (Bool-cases (text_eq j k)) [
    | inl e ↦ absurd (ground (arith, get-delete k j m))
    | inr e ↦ (ground (arith, text_eq_iff j k), ground (arith, get-delete k j m))
  ]

  pub get-delete-none : (k j : Text) (m : Database V) → get j m ≡ none → get j (delete k m) ≡ none
  get-delete-none k j m h = ground (arith, get-delete k j m)

  -- Deleting an absent key changes nothing that can be read.
  pub get-delete_absent :
      (k j : Text) (m : Database V) → get k m ≡ none → get j (delete k m) ≡ get j m
  get-delete_absent k j m h = ground (arith, get-delete k j m, text_eq_iff j k)

  -- No key stands twice.
  abbrev pub Distinct : Database V → Type 0
  Distinct [] = Unit
  Distinct ((k, v) ∷ m) = (get k m ≡ none) × Distinct m

  pub Distinct-delete : (k : Text) (m : Database V) → Distinct m → Distinct (delete k m)
  unfolding delete
  Distinct-delete k [] h = tt
  Distinct-delete k ((j, w) ∷ m) h =
      ground (arith, get-delete k j m, Distinct-delete k m h.1, text_eq_iff k j, text_eq_iff j k)

  Distinct-place :
      (k : Text) (v : V) (m : Database V) → get k m ≡ none → Distinct m → Distinct (place k v m)
  unfolding place get
  Distinct-place k v [] e h = ground arith
  Distinct-place k v ((j, w) ∷ m) e h =
      ground (arith, get-place k j v m, Distinct-place k v m, text_eq_iff k j, text_eq_iff j k)

  pub Distinct-put : (k : Text) (v : V) (m : Database V) → Distinct m → Distinct (put k v m)
  unfolding put
  Distinct-put k v m h =
      Distinct-place k v (delete k m) (get-delete_self k m) (Distinct-delete k m h)

  get-met :
      (p t j : Text) (o : Option Text) (w : V) (m : Database V) (rest : List (Text × V))
      → strip_prefix p j ≡ o
      → get t rest ≡ get (p ++ t) m
      → get t (met o w rest) ≡ get (p ++ t) ((j, w) ∷ m)
  unfolding get
  get-met p t j none w m rest q step = elim (Bool-cases (text_eq (p ++ t) j)) [
    | inl e ↦ absurd (
        none≢some (
          sym q
          ∙ ap (strip_prefix p) (sym ((text_eq_iff (p ++ t) j).0 e))
          ∙ strip_prefix-append p t))
    | inr e ↦ rw e step
  ]
  get-met p t j (some r) w m rest q step = ground (
    arith,
    text_eq_iff t r,
    text_eq_iff (p ++ t) j,
    strip_prefix-some p j r q,
    same_suffix p t j r q,
  )

  -- Reading what the iteration yields is reading under the prefix.
  pub get-prefix_iter : (p t : Text) (m : Database V) → get t (prefix_iter p m) ≡ get (p ++ t) m
  unfolding prefix_iter
  get-prefix_iter p t [] = unfold get in refl
  get-prefix_iter p t ((j, w) ∷ m) =
      get-met p t j (strip_prefix p j) w m (prefix_iter p m) refl (get-prefix_iter p t m)

  Distinct-met :
      (p j : Text) (o : Option Text) (w : V) (m : Database V)
      → strip_prefix p j ≡ o
      → get j m ≡ none
      → Distinct (prefix_iter p m)
      → Distinct (met o w (prefix_iter p m))
  Distinct-met p j none w m q fresh h = h
  Distinct-met p j (some r) w m q fresh h = (
    get-prefix_iter p r m ∙ ap (λ (k : Text). get k m) (sym (strip_prefix-some p j r q)) ∙ fresh,
    h,
  )

  pub Distinct-prefix_iter : (p : Text) (m : Database V) → Distinct m → Distinct (prefix_iter p m)
  unfolding prefix_iter
  Distinct-prefix_iter p [] h = tt
  Distinct-prefix_iter p ((j, w) ∷ m) h =
      Distinct-met p j (strip_prefix p j) w m refl h.0 (Distinct-prefix_iter p m h.1)
