-- ===== src/Sqlite/Listing/Ordered.antt =====
-- The rows of the statement `ORDER BY created_at DESC, id DESC`: strictly descending, and the rows
-- after a position.
use oidc_exchange.Base.{
  suc, length, ◌≡◌, refl, sym, subst, ◌≢◌, ◌⊎◌, inl, inr, ◌↔◌, Bool, true, false, List, [], ◌∷◌,
  ◌++◌, Text, text_eq_iff, text_eq_refl, text_lt, keep, All, In, member, Nodup, Bool-cases,
  if◌then◌else◌, arith,
}
use oidc_exchange.Domain.User.{User}
use oidc_exchange.Cursor.{CursorCodec}
use oidc_exchange.Sqlite.Listing.{Position, below, position, insert_row, order_by}

text_lt-irreflexive : (a : Text) → text_lt a a ≡ false
unfolding text_lt
text_lt-irreflexive [] = refl
text_lt-irreflexive (x ∷ a) = ground (arith, text_lt-irreflexive a)

text_lt_trans : (a b c : Text) → text_lt a b ≡ true → text_lt b c ≡ true → text_lt a c ≡ true
unfolding text_lt
text_lt_trans [] [] c h k = cc
text_lt_trans [] (y ∷ b) [] h k = cc
text_lt_trans [] (y ∷ b) (z ∷ c) h k = refl
text_lt_trans (x ∷ a) [] c h k = cc
text_lt_trans (x ∷ a) (y ∷ b) [] h k = cc
text_lt_trans (x ∷ a) (y ∷ b) (z ∷ c) h k = ground (arith, text_lt_trans a b c)

text_lt-connected : (a b : Text) → text_lt a b ≡ false → text_lt b a ≡ false → a ≡ b
unfolding text_lt
text_lt-connected [] [] h k = refl
text_lt-connected [] (y ∷ b) h k = cc
text_lt-connected (x ∷ a) [] h k = cc
text_lt-connected (x ∷ a) (y ∷ b) h k = ground (arith, text_lt-connected a b)

below-irreflexive : (p : Position) → below p p ≡ false
unfolding below
below-irreflexive (c, i) = ground (arith, text_lt-irreflexive c, text_lt-irreflexive i)

below_trans : (p q r : Position) → below p q ≡ true → below q r ≡ true → below p r ≡ true
unfolding below
below_trans (c, i) (d, j) (e, k) h l = ground (
  arith,
  h,
  l,
  text_lt_trans c d e,
  text_lt_trans i j k,
  text_eq_iff c d,
  text_eq_iff d e,
  text_eq_iff c e,
)

below-connected : (p q : Position) → below p q ≡ false → p.1 ≢ q.1 → below q p ≡ true
unfolding below
below-connected (c, i) (d, j) h n = ground (
  arith,
  h,
  n,
  text_lt-connected c d,
  text_lt-connected i j,
  text_eq_iff c d,
  text_eq_iff d c,
  text_eq_refl c,
)

-- Every row stands above all that follow it.
abbrev pub Descending : CursorCodec → List User → Type 0
Descending codec [] = Unit
Descending codec (u ∷ us) =
    All (λ (v : User). below (position codec v) (position codec u) ≡ true) us × Descending codec us

All-map : (P Q : User → Type 0) (us : List User) → ((u : User) → P u → Q u) → All P us → All Q us
All-map P Q [] f h = tt
All-map P Q (u ∷ us) f h = (f u h.0, All-map P Q us f h.1)

abbrev pub ids : List User → List Text
ids [] = []
ids (u ∷ us) = u.id ∷ ids us

keep-All : (p : User → Bool) (us : List User) → All (λ (u : User). p u ≡ true) us → keep p us ≡ us
unfolding keep
keep-All p [] h = refl
keep-All p (u ∷ us) h = ground (arith, h.0, keep-All p us h.1)

pub All-middle :
    (P : User → Type 0) (pre : List User) (u : User) (post : List User)
    → All P (pre ++ u ∷ post)
    → P u
All-middle P [] u post h = h.0
All-middle P (x ∷ pre) u post h = All-middle P pre u post h.1

asymmetric : (p q : Position) → below p q ≡ true → below q p ≡ false
asymmetric p q h = elim (Bool-cases (below q p)) [
  | inr e ↦ e
  | inl e ↦ cc (below_trans p q p h e, below-irreflexive p)
]

-- An id that no row repeats differs from each.
apart : (i : Text) (us : List User) → member i (ids us) ≡ false → All (λ (v : User). v.id ≢ i) us
unfolding member
apart i [] h = tt
apart i (v ∷ vs) h = (ground (arith, h, text_eq_iff i v.id), apart i vs (ground (arith, h)))

swapped : {A B C D : Type 0} → (B ↔ (A ⊎ C)) → ((D ⊎ B) ↔ (A ⊎ (D ⊎ C)))
swapped e = (
  λ h. elim h [
    | inl d ↦ inr (inl d)
    | inr b ↦ elim (e.0 b) [ inl a ↦ inl a | inr c ↦ inr (inr c) ]
  ],
  λ h. elim h [ inl a ↦ inr (e.1 (inl a)) | inr (inl d) ↦ inl d | inr (inr c) ↦ inr (e.1 (inr c)) ],
)

module _ (codec : CursorCodec) where
  insert_row-All :
      (P : User → Type 0) (u : User) (us : List User)
      → P u
      → All P us
      → All P (insert_row codec u us)
  unfolding insert_row
  insert_row-All P u [] p h = (p, tt)
  insert_row-All P u (v ∷ vs) p h =
      elim (below (position codec v) (position codec u))
        as (λ b. All P (if b then u ∷ v ∷ vs else v ∷ insert_row codec u vs)) [
          | true ↦ (p, h)
          | false ↦ (h.0, insert_row-All P u vs p h.1)
        ]

  pub order_by-All : (P : User → Type 0) (us : List User) → All P us → All P (order_by codec us)
  unfolding order_by
  order_by-All P [] h = tt
  order_by-All P (u ∷ us) h = insert_row-All P u (order_by codec us) h.0 (order_by-All P us h.1)

  insert_row-Descending :
      (u : User) (us : List User)
      → All (λ (v : User). v.id ≢ u.id) us
      → Descending codec us
      → Descending codec (insert_row codec u us)
  unfolding insert_row
  insert_row-Descending u [] n d = (tt, tt)
  insert_row-Descending u (v ∷ vs) n d =
      elim (Bool-cases (below (position codec v) (position codec u))) [
        | inl e ↦
            subst
              (λ (b : Bool). Descending codec (if b then u ∷ v ∷ vs else v ∷ insert_row codec u vs))
              (sym e)
              (
                (
                  e,
                  All-map (λ w. below (position codec w) (position codec v) ≡ true)
                      (λ w. below (position codec w) (position codec u) ≡ true) vs
                      (λ w h.
                        below_trans (position codec w) (position codec v) (position codec u) h e)
                      d.0,
                ),
                d,
              )
        | inr e ↦
            subst
              (λ (b : Bool). Descending codec (if b then u ∷ v ∷ vs else v ∷ insert_row codec u vs))
              (sym e)
              (
                insert_row-All (λ w. below (position codec w) (position codec v) ≡ true) u vs
                    (below-connected (position codec v) (position codec u) e n.0) d.0,
                insert_row-Descending u vs n.1 d.1,
              )
      ]

  -- Rows of distinct ids come out strictly descending.
  pub order_by-Descending : (us : List User) → Nodup (ids us) → Descending codec (order_by codec us)
  unfolding order_by
  order_by-Descending [] n = tt
  order_by-Descending (u ∷ us) n =
      insert_row-Descending u (order_by codec us)
        (order_by-All (λ v. v.id ≢ u.id) us (apart u.id us n.0)) (order_by-Descending us n.1)

  insert_row-In : (w u : User) (us : List User) → In w (insert_row codec u us) ↔ ((w ≡ u) ⊎ In w us)
  unfolding insert_row
  insert_row-In w u [] = (λ h. h, λ h. h)
  insert_row-In w u (v ∷ vs) =
      elim (below (position codec v) (position codec u))
        as (λ b.
          In w (if b then u ∷ v ∷ vs else v ∷ insert_row codec u vs) ↔ ((w ≡ u) ⊎ In w (v ∷ vs))) [
            | true ↦ (λ h. h, λ h. h)
            | false ↦ swapped (insert_row-In w u vs)
          ]

  length-insert_row : (u : User) (us : List User) → length (insert_row codec u us) ≡ suc (length us)
  unfolding insert_row
  length-insert_row u [] = refl
  length-insert_row u (v ∷ vs) = ground (arith, length-insert_row u vs)

  pub length-order_by : (us : List User) → length (order_by codec us) ≡ length us
  unfolding order_by
  length-order_by [] = refl
  length-order_by (u ∷ us) =
      omega (arith, length-insert_row u (order_by codec us), length-order_by us)

  -- The rows in order are the rows.
  pub order_by-In : (w : User) (us : List User) → In w (order_by codec us) ↔ In w us
  unfolding order_by
  order_by-In w [] = (λ h. h, λ h. h)
  order_by-In w (u ∷ us) =
      let i = insert_row-In w u (order_by codec us) in
      let r = order_by-In w us in
      (
        λ h. elim (i.0 h) [ inl e ↦ inl e | inr k ↦ inr (r.0 k) ],
        λ h. i.1 (elim h [ inl e ↦ inl e | inr k ↦ inr (r.1 k) ]),
      )

  -- The rows below one of them are those that follow it.
  pub keep-below :
      (pre : List User) (u : User) (post : List User)
      → Descending codec (pre ++ u ∷ post)
      → keep (λ w. below (position codec w) (position codec u)) (pre ++ u ∷ post) ≡ post
  unfolding keep
  keep-below [] u post d = ground (
    arith,
    below-irreflexive (position codec u),
    keep-All (λ w. below (position codec w) (position codec u)) post d.0,
  )
  keep-below (x ∷ pre) u post d = ground (
    arith,
    asymmetric (position codec u) (position codec x)
        (All-middle (λ w. below (position codec w) (position codec x) ≡ true) pre u post d.0),
    keep-below pre u post d.1,
  )
