-- ===== src/Sqlite/Listing/Walk.antt =====
-- The pages of a listing one after another: each row of the table once, newest first.
use oidc_exchange.Base.{
  ℕ, zero, suc, ◌+◌, ◌≤◌, ◌<◌, ◌≡◌, refl, sym, subst, ap, ◌∙◌, inl, inr, ◌↔◌, true, false, Option,
  none, some, List, [], ◌∷◌, ◌++◌, Text, is_empty, length, length-append, take, leb, All, In, Nodup,
  Bool-cases, arith,
}
use oidc_exchange.Error.{Result, ok, ◌>>=◌}
use oidc_exchange.Domain.User.{User, max_admin_page_size}
use oidc_exchange.Cursor.{
  CursorCodec, KeysetCursor, LawfulCursorCodec, encode, decode-encode_cursor,
}
use oidc_exchange.Sqlite.{Users}
use oidc_exchange.Sqlite.Listing.{
  row_users, last_user, order_by, selected, page_of, resume_after, list_users, walk,
}
use oidc_exchange.Sqlite.Listing.Ordered.{
  Descending, ids, order_by-All, order_by-Descending, order_by-In, length-order_by, keep-below,
  All-middle,
}

take-append :
    (pre rest : List User) (m k : ℕ)
    → m ≡ length pre + k
    → take m (pre ++ rest) ≡ pre ++ take k rest
take-append [] rest m k e = ap (λ n. take n rest) (omega (arith, e))
take-append (u ∷ pre) rest zero k e = absurd (omega (arith, e))
take-append (u ∷ pre) rest (suc m) k e =
    ap (λ (us : List User). u ∷ us) (take-append pre rest m k (omega (arith, e)))

length-take_le : (n : ℕ) (us : List User) → length (take n us) ≤ n
length-take_le zero us = omega arith
length-take_le (suc n) [] = omega arith
length-take_le (suc n) (u ∷ us) = omega (arith, length-take_le n us)

take-short : (n : ℕ) (us : List User) → length us ≤ n → take n us ≡ us
take-short zero [] h = refl
take-short zero (u ∷ us) h = absurd (omega (arith, h))
take-short (suc n) [] h = refl
take-short (suc n) (u ∷ us) h = ap (λ (vs : List User). u ∷ vs) (take-short n us (omega (arith, h)))

last_user-append : (pre : List User) (u : User) → last_user (pre ++ u ∷ []) ≡ some u
last_user-append [] u = refl
last_user-append (v ∷ []) u = refl
last_user-append (v ∷ w ∷ pre) u = last_user-append (w ∷ pre) u

append_assoc : (us vs ws : List User) → (us ++ vs) ++ ws ≡ us ++ (vs ++ ws)
append_assoc [] vs ws = refl
append_assoc (u ∷ us) vs ws = ap (λ (xs : List User). u ∷ xs) (append_assoc us vs ws)

-- More rows than the limit: a full page of them, its last one, and those that follow.
abbrev Cut : ℕ → List User → Type 0
Cut n rest =
    (pre : List User) × (u : User) × (v : User) × (post : List User) × (rest ≡ pre ++ u ∷ v ∷ post)
    × (length pre ≡ n)

cut : (n : ℕ) (rest : List User) → suc n < length rest → Cut n rest
cut n [] h = absurd (omega (arith, h))
cut zero (u ∷ []) h = absurd (omega (arith, h))
cut zero (u ∷ v ∷ post) h = ([], u, v, post, refl, refl)
cut (suc n) (u ∷ us) h =
    let (pre, w, v, post, e, l) = cut n us (omega (arith, h)) in
    (u ∷ pre, w, v, post, ap (λ (xs : List User). u ∷ xs) e, ap suc l)

abbrev cursor_of : User → KeysetCursor
cursor_of u = record { created_at = u.created_at; id = u.id }

shorter :
    (pre : List User) (u : User) (post rest : List User) (n : ℕ)
    → rest ≡ pre ++ u ∷ post
    → length rest < suc n
    → length post < n
shorter pre u post rest n c h =
    omega (arith, h, ap (λ (us : List User). length us) c, length-append pre (u ∷ post))

module _ (codec : CursorCodec) where
  -- A page where no more rows than the limit are left.
  page_of-last :
      (limit : ℕ) (rest : List User)
      → length rest ≤ limit
      → page_of codec limit (take (limit + 1) rest)
        ≡ ok (record { users = rest; next_cursor = none })
  unfolding page_of
  page_of-last limit rest h =
      rw (take-short (limit + 1) rest (omega (arith, h))) (ground (arith, h))

  -- A page that others follow.
  page_of-more :
      (pre : List User) (u v : User) (post : List User) (c : Text)
      → encode codec (cursor_of u) ≡ ok c
      → page_of codec (length pre + 1) (take (length pre + 1 + 1) (pre ++ u ∷ v ∷ post))
        ≡ ok (record { users = pre ++ u ∷ []; next_cursor = some c })
  unfolding page_of
  page_of-more pre u v post c e =
      rw (take-append pre (u ∷ v ∷ post) (length pre + 1 + 1) 2 (omega arith)) (
        rw (take-append pre (u ∷ v ∷ []) (length pre + 1) 1 (omega arith))
          (ground (arith, e, length-append pre (u ∷ v ∷ []), last_user-append pre u)))

  fetched-fits :
      (limit : ℕ) (us : List User) → leb (length (take (limit + 1) us)) (limit + 1) ≡ true
  fetched-fits limit us = ground (arith, length-take_le (limit + 1) us)

  module _ (limit : ℕ) (rows : Users) (low : 1 ≤ limit) (high : limit ≤ max_admin_page_size) where
    abbrev all : List User
    all = order_by codec (row_users rows)

    -- The page at a cursor that decodes.
    list_users-page :
        (cursor : Option Text) (at : Option KeysetCursor) (rest : List User)
        → resume_after codec cursor ≡ ok at
        → selected codec at all ≡ rest
        → list_users codec cursor limit rows ≡ page_of codec limit (take (limit + 1) rest)
    unfolding list_users
    list_users-page cursor at rest d e = ground (arith, d, e, low, high, fetched-fits limit rest)

    list_users-last :
        (n : ℕ) (cursor : Option Text) (at : Option KeysetCursor) (rest : List User)
        → resume_after codec cursor ≡ ok at
        → selected codec at all ≡ rest
        → length rest ≤ limit
        → walk codec (suc n) limit rows cursor ≡ some rest
    list_users-last n cursor at rest d e h =
        ground (arith, list_users-page cursor at rest d e, page_of-last limit rest h)

    -- A page that others follow, and the walk from its cursor.
    list_users-more :
        (n : ℕ) (cursor : Option Text) (at : Option KeysetCursor) (pre : List User) (u v : User)
        (post : List User) (c : Text)
        → resume_after codec cursor ≡ ok at
        → selected codec at all ≡ pre ++ u ∷ v ∷ post
        → length pre + 1 ≡ limit
        → encode codec (cursor_of u) ≡ ok c
        → walk codec n limit rows (some c) ≡ some (v ∷ post)
        → walk codec (suc n) limit rows cursor ≡ some (pre ++ u ∷ v ∷ post)
    list_users-more n cursor at pre u v post c d e l k w = ground (
      arith,
      w,
      list_users-page cursor at (pre ++ u ∷ v ∷ post) d e,
      subst
          (λ (m : ℕ).
            page_of codec m (take (m + 1) (pre ++ u ∷ v ∷ post))
            ≡ ok (record { users = pre ++ u ∷ []; next_cursor = some c }))
          l (page_of-more pre u v post c k),
      append_assoc pre (u ∷ []) (v ∷ post),
    )

module _ (codec : CursorCodec) (lawful : LawfulCursorCodec codec) (rows : Users)
    (sorted : Descending codec (order_by codec (row_users rows)))
    (named : All (λ (u : User). is_empty u.id ≡ false) (order_by codec (row_users rows))) where
  -- The cursor of the page that ends in `u` resumes with what follows `u`.
  next_cursor-resumes :
      (front : List User) (u v : User) (post : List User)
      → order_by codec (row_users rows) ≡ front ++ u ∷ v ∷ post
      → (raw : Text) × (encode codec (cursor_of u) ≡ ok raw)
        × (resume_after codec (some raw) ≡ ok (some (cursor_of u)))
        × (selected codec (some (cursor_of u)) (order_by codec (row_users rows)) ≡ v ∷ post)
  next_cursor-resumes front u v post g =
      let resumed =
        subst (λ (us : List User). selected codec (some (cursor_of u)) us ≡ v ∷ post) (sym g)
          (keep-below codec front u (v ∷ post) (subst (Descending codec) g sorted)) in
      let id_u =
        All-middle (λ (w : User). is_empty w.id ≡ false) front u (v ∷ post)
          (subst (All (λ (w : User). is_empty w.id ≡ false)) g named) in
      let (raw, k, j) = decode-encode_cursor codec lawful (cursor_of u) id_u in
      (raw, k, ap (λ (r : Result KeysetCursor). r >>= λ x. ok (some x)) j, resumed)

  walk-rest :
      (n limit : ℕ) (cursor : Option Text) (at : Option KeysetCursor) (front rest : List User)
      → 1 ≤ limit
      → limit ≤ max_admin_page_size
      → order_by codec (row_users rows) ≡ front ++ rest
      → resume_after codec cursor ≡ ok at
      → selected codec at (order_by codec (row_users rows)) ≡ rest
      → length rest < n
      → walk codec n limit rows cursor ≡ some rest
  walk-rest n zero cursor at front rest low high f d e h = absurd (omega (arith, low))
  walk-rest zero (suc limit) cursor at front rest low high f d e h = absurd (omega (arith, h))
  walk-rest (suc n) (suc limit) cursor at front rest low high f d e h =
      elim (Bool-cases (leb (length rest) (suc limit))) [
        | inl s ↦
            list_users-last codec (suc limit) rows low high n cursor at rest d e (ground (arith, s))
        | inr s ↦
            (let (pre, u, v, post, c, l) = cut limit rest (ground (arith, s)) in
              let g = f ∙ ap (λ (us : List User). front ++ us) c in
              let split = g ∙ sym (append_assoc front pre (u ∷ v ∷ post)) in
              let (raw, k, r, q) = next_cursor-resumes (front ++ pre) u v post split in
              list_users-more codec (suc limit) rows low high n cursor at pre u v post raw d (e ∙ c)
                (omega (arith, l)) k
                (walk-rest n (suc limit) (some raw) (some (cursor_of u)) ((front ++ pre) ++ u ∷ [])
                  (v ∷ post) low high
                  (split ∙ sym (append_assoc (front ++ pre) (u ∷ []) (v ∷ post))) r q
                  (shorter pre u (v ∷ post) rest n c h))
              ∙ ap some (sym c))
      ]

-- Pages of 1 to 200 users, asked for one after another, give every user of a table at rest exactly
-- once, newest first, and end within one page more than there are users, where the ids of the rows
-- are distinct and not empty and the codecs read back what they wrote.
pub walk-every :
    (codec : CursorCodec) (lawful : LawfulCursorCodec codec) (rows : Users) (n limit : ℕ)
    → 1 ≤ limit
    → limit ≤ max_admin_page_size
    → Nodup (ids (row_users rows))
    → All (λ (u : User). is_empty u.id ≡ false) (row_users rows)
    → length (row_users rows) < n
    → (listed : List User) × (walk codec n limit rows none ≡ some listed)
      × Descending codec listed
      × ((u : User) → In u listed ↔ In u (row_users rows))
walk-every codec lawful rows n limit low high distinct named enough =
    let sorted = order_by-Descending codec (row_users rows) distinct in
    let named' = order_by-All codec (λ (u : User). is_empty u.id ≡ false) (row_users rows) named in
    (
      order_by codec (row_users rows),
      walk-rest codec lawful rows sorted named' n limit none none []
          (order_by codec (row_users rows)) low high refl refl refl
          (omega (arith, enough, length-order_by codec (row_users rows))),
      sorted,
      λ u. order_by-In codec u (row_users rows),
    )
