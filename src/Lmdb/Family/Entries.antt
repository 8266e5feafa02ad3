-- ===== src/Lmdb/Family/Entries.antt =====
-- What the family index yields for one family, on consistent databases.
use oidc_exchange.Base.{
  ◌≡◌, ◌≢◌, ◌⊎◌, refl, sym, ◌∙◌, ap, true, false, some, none, [], ◌∷◌, Text, text_eq, text_eq_iff,
  get, arith, inl, inr, Bool-cases, Database, Distinct, Distinct-prefix_iter, member, Nodup,
  get-prefix_iter, is_empty, text_eq_refl,
}
use mathlib.Core.List.{append_assoc}
use mathlib.Core.Bool.{false≢true}
use oidc_exchange.Domain.Session.{
  Session, RetiredRefreshToken, is_valid_family_id, is_valid_family_id-empty,
}
use oidc_exchange.Lmdb.{Dbs, kind_live, kind_retired, family_index_key}
use oidc_exchange.Lmdb.Sessions.{of_kind, kinds_known, family_entries}
use oidc_exchange.Lmdb.Consistent.{Consistent, Filing, live, retired}
use oidc_exchange.Lmdb.Consistent.Keys.{family_index_key-injective}

-- A hash is among those of one kind exactly when its entry has that kind.
pub member-of_kind :
    (kind h : Text) (m : Database Text)
    → Distinct m
    → member h (of_kind kind m) ≡ true
    → get h m ≡ some kind
unfolding of_kind member get
member-of_kind kind h [] d e = cc
member-of_kind kind h ((j, k) ∷ m) d e =
    ground (arith, text_eq_iff k kind, text_eq_iff h j, member-of_kind kind h m d.1)

pub of_kind-member :
    (kind h : Text) (m : Database Text) → get h m ≡ some kind → member h (of_kind kind m) ≡ true
unfolding of_kind member get
of_kind-member kind h [] e = cc
of_kind-member kind h ((j, k) ∷ m) e =
    ground (arith, text_eq_iff k kind, text_eq_iff h j, of_kind-member kind h m)

pub of_kind-Nodup : (kind : Text) (m : Database Text) → Distinct m → Nodup (of_kind kind m)
unfolding of_kind
of_kind-Nodup kind [] d = tt
of_kind-Nodup kind ((j, k) ∷ m) d = elim (Bool-cases (text_eq k kind)) [
  | inr e ↦ rw e (of_kind-Nodup kind m d.1)
  | inl e ↦ rw e (
    elim (Bool-cases (member j (of_kind kind m))) [
      | inl x ↦ absurd (cc (member-of_kind kind j m d.1 x, d.0))
      | inr x ↦ x
    ],
    of_kind-Nodup kind m d.1,
  )
]

get-head : (j k : Text) (m : Database Text) → get j ((j, k) ∷ m) ≡ some k
unfolding get
get-head j k m = ground (arith, text_eq_refl j)

get-tail :
    (h j k v : Text) (m : Database Text)
    → get j m ≡ none
    → get h m ≡ some v
    → get h ((j, k) ∷ m) ≡ some v
unfolding get
get-tail h j k v m n g = ground (arith, text_eq_iff h j)

pub kinds_known_all :
    (m : Database Text)
    → Distinct m
    → ((h k : Text) → get h m ≡ some k → (k ≡ kind_live) ⊎ (k ≡ kind_retired))
    → kinds_known m ≡ true
unfolding kinds_known
kinds_known_all [] d f = refl
kinds_known_all ((j, k) ∷ m) d f = ground (
  arith,
  text_eq_iff k kind_live,
  text_eq_iff k kind_retired,
  f j k (get-head j k m),
  kinds_known_all m d.1 (λ h v g. f h v (get-tail h j k v m d.0 g)),
)

kinds_differ : kind_live ≢ kind_retired
kinds_differ e = absurd (false≢true (unfold text_eq in (text_eq_iff kind_live kind_retired).1 e))

is_valid_family_id-full : (f : Text) → is_valid_family_id f ≡ true → is_empty f ≡ false
is_valid_family_id-full [] v = absurd (false≢true (sym is_valid_family_id-empty ∙ v))
is_valid_family_id-full (x ∷ f) v = unfold is_empty in refl

module _ (family_id : Text) (valid : is_valid_family_id family_id ≡ true) (d : Dbs)
    (c : Consistent d) where
  pub Distinct-family_entries : Distinct (family_entries family_id d)
  unfolding family_entries
  Distinct-family_entries = Distinct-prefix_iter _ d.family_index c.index_distinct

  pub get-family_entries :
      (h : Text)
      → get h (family_entries family_id d) ≡ get (family_index_key family_id h) d.family_index
  unfolding family_entries family_index_key
  get-family_entries h =
      get-prefix_iter _ h d.family_index
      ∙ ap (λ (k : Text). get k d.family_index) (append_assoc family_id _ h)

  entry_live :
      (h v : Text)
      → Filing d (family_index_key family_id h) v
      → v ≡ kind_live
      → (s : Session) × (get h d.sessions ≡ some s) × (s.family_id ≡ family_id)
  entry_live h v (live s j g f key kind) e =
      let p =
        family_index_key-injective family_id s.family_id h j (inr valid)
          (c.session_row j s g).family key in
      (s, cc (g, p.1), sym p.0)
  entry_live h v (retired r j g key kind) e = absurd (kinds_differ (sym e ∙ kind))

  entry_retired :
      (h v : Text)
      → Filing d (family_index_key family_id h) v
      → v ≡ kind_retired
      → (r : RetiredRefreshToken) × (get h d.retired_tokens ≡ some r) × (r.family_id ≡ family_id)
  entry_retired h v (live s j g f key kind) e = absurd (kinds_differ (sym kind ∙ e))
  entry_retired h v (retired r j g key kind) e =
      let p =
        family_index_key-injective family_id r.family_id h j (inr valid)
          (inr (c.retired_row j r g).family) key in
      (r, cc (g, p.1), sym p.0)

  Filing-kind : (k v : Text) → Filing d k v → (v ≡ kind_live) ⊎ (v ≡ kind_retired)
  Filing-kind k v (live s j g f key kind) = inl kind
  Filing-kind k v (retired r j g key kind) = inr kind

  abbrev pub entries : Database Text
  entries = family_entries family_id d

  pub entries-kinds_known : kinds_known entries ≡ true
  entries-kinds_known =
      kinds_known_all entries Distinct-family_entries
        (λ h v g. Filing-kind _ v (c.family_entry _ v (sym (get-family_entries h) ∙ g)))

  -- The hashes of kind live are those of the family's sessions.
  pub live_hashes :
      (h : Text)
      → member h (of_kind kind_live entries) ≡ true
      → (s : Session) × (get h d.sessions ≡ some s) × (s.family_id ≡ family_id)
  live_hashes h m =
      entry_live h kind_live
        (c.family_entry _ _ (
          sym (get-family_entries h)
          ∙ member-of_kind kind_live h entries Distinct-family_entries m))
        refl

  pub retired_hashes :
      (h : Text)
      → member h (of_kind kind_retired entries) ≡ true
      → (r : RetiredRefreshToken) × (get h d.retired_tokens ≡ some r) × (r.family_id ≡ family_id)
  retired_hashes h m =
      entry_retired h kind_retired
        (c.family_entry _ _ (
          sym (get-family_entries h)
          ∙ member-of_kind kind_retired h entries Distinct-family_entries m))
        refl

  valid_full : is_empty family_id ≡ false
  valid_full = is_valid_family_id-full family_id valid

  pub live_listed :
      (h : Text) (s : Session)
      → get h d.sessions ≡ some s
      → s.family_id ≡ family_id
      → member h (of_kind kind_live entries) ≡ true
  live_listed h s g e =
      of_kind-member kind_live h entries
        (get-family_entries h ∙ (rw e at ((c.session_row h s g).filed (rw e valid_full))))

  pub retired_listed :
      (h : Text) (r : RetiredRefreshToken)
      → get h d.retired_tokens ≡ some r
      → r.family_id ≡ family_id
      → member h (of_kind kind_retired entries) ≡ true
  retired_listed h r g e =
      of_kind-member kind_retired h entries
        (get-family_entries h ∙ (rw e at ((c.retired_row h r g).filed)))
