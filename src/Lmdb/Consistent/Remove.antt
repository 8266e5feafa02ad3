-- ===== src/Lmdb/Consistent/Remove.antt =====
-- Removing one live row keeps the databases consistent.
use oidc_exchange.Base.{
  ◌≡◌, ◌≢◌, refl, sym, ◌∙◌, false, some, none, Text, Distinct, is_empty, get, get-delete-some,
  get-delete_self, get-delete-none, get-delete_ne, Distinct-delete, inl, inr, Bool-cases,
}
use mathlib.Core.Bool.{false≢true}
use oidc_exchange.Domain.Session.{Session, RetiredRefreshToken}
use oidc_exchange.Lmdb.{Dbs, remove_live_entry, user_session_key, family_index_key}
use oidc_exchange.Lmdb.Consistent.{
  Consistent, SessionRow, RetiredRow, Filing, live, retired, UserEntry,
}
use oidc_exchange.Lmdb.Consistent.Keys.{user_session_key-injective, family_index_key-injective}

module _ (d : Dbs) (c : Consistent d) (h : Text) (s : Session) (e : get h d.sessions ≡ some s) where
  abbrev pub after : Dbs
  after = (remove_live_entry d h s).1

  -- The other live rows are as they were.
  pub other_session :
      (j : Text) (t : Session)
      → get j after.sessions ≡ some t
      → (j ≢ h) × (get j d.sessions ≡ some t)
  unfolding remove_live_entry
  other_session j t k = get-delete-some h j t d.sessions k

  pub removed : get h after.sessions ≡ none
  unfolding remove_live_entry
  removed = get-delete_self h d.sessions

  pub unchanged_session : (j : Text) → j ≢ h → get j after.sessions ≡ get j d.sessions
  unfolding remove_live_entry
  unchanged_session j n = get-delete_ne h j d.sessions n

  pub still_absent : (j : Text) → get j d.sessions ≡ none → get j after.sessions ≡ none
  unfolding remove_live_entry
  still_absent j k = get-delete-none h j d.sessions k

  pub kept_session :
      (j : Text) (t : Session) → j ≢ h → get j d.sessions ≡ some t → get j after.sessions ≡ some t
  unfolding remove_live_entry
  kept_session j t n k = rw (get-delete_ne h j d.sessions n) k

  pub same_retired : (j : Text) → get j after.retired_tokens ≡ get j d.retired_tokens
  unfolding remove_live_entry
  same_retired j = refl

  kept_user :
      (k v : Text)
      → k ≢ user_session_key s.user_id h
      → get k d.user_sessions ≡ some v
      → get k after.user_sessions ≡ some v
  unfolding remove_live_entry
  kept_user k v n g = rw (get-delete_ne (user_session_key s.user_id h) k d.user_sessions n) g

  other_user :
      (k v : Text)
      → get k after.user_sessions ≡ some v
      → (k ≢ user_session_key s.user_id h) × (get k d.user_sessions ≡ some v)
  unfolding remove_live_entry
  other_user k v g = get-delete-some (user_session_key s.user_id h) k v d.user_sessions g

  kept_filing :
      (k v : Text)
      → k ≢ family_index_key s.family_id h
      → get k d.family_index ≡ some v
      → get k after.family_index ≡ some v
  unfolding remove_live_entry
  kept_filing k v n g = elim (Bool-cases (is_empty s.family_id)) [
    | inl b ↦ rw b g
    | inr b ↦ rw b (rw (get-delete_ne (family_index_key s.family_id h) k d.family_index n) g)
  ]

  other_filing :
      (k v : Text)
      → get k after.family_index ≡ some v
      → (is_empty s.family_id ≡ false → k ≢ family_index_key s.family_id h)
        × (get k d.family_index ≡ some v)
  unfolding remove_live_entry
  other_filing k v g = elim (Bool-cases (is_empty s.family_id)) [
    | inl b ↦ (λ f. absurd (false≢true (sym f ∙ b)), rw b at g)
    | inr b ↦
        let p = get-delete-some (family_index_key s.family_id h) k v d.family_index (rw b at g) in
        (λ _. p.0, p.1)
  ]

  abbrev own : SessionRow d h s
  own = c.session_row h s e

  row : (j : Text) (t : Session) → get j after.sessions ≡ some t → SessionRow after j t
  row j t k =
      let (n, g) = other_session j t k in
      let q : SessionRow d j t = c.session_row j t g in
      record {
        hash = q.hash;
        owner = q.owner;
        family = q.family;
        listed =
            kept_user _ _
              (λ p. n (user_session_key-injective t.user_id s.user_id j h q.owner own.owner p).1)
              q.listed;
        filed = λ f.
            kept_filing _ _
              (λ p.
                n (family_index_key-injective t.family_id s.family_id j h q.family own.family p).1)
              (q.filed f);
        not_retired = rw (same_retired j) q.not_retired;
      }

  not_live_and_retired :
      (j : Text) (r : RetiredRefreshToken) → get j d.retired_tokens ≡ some r → j ≢ h
  not_live_and_retired j r g p = cc (own.not_retired, p, g)

  entry_key-removed :
      (k : Text) (t : Session) (j : Text)
      → get j d.sessions ≡ some t
      → k ≡ user_session_key t.user_id j
      → j ≡ h
      → k ≡ user_session_key s.user_id h
  entry_key-removed k t j g key p = cc

  filing_key-removed :
      (k : Text) (t : Session) (j : Text)
      → get j d.sessions ≡ some t
      → is_empty t.family_id ≡ false
      → k ≡ family_index_key t.family_id j
      → j ≡ h
      → (is_empty s.family_id ≡ false → k ≢ family_index_key s.family_id h)
      → ⊥
  filing_key-removed k t j g f key p n = n (cc) (cc)

  Distinct-user_sessions : Distinct after.user_sessions
  unfolding remove_live_entry
  Distinct-user_sessions =
      Distinct-delete (user_session_key s.user_id h) d.user_sessions c.user_distinct

  Distinct-family_index : Distinct after.family_index
  unfolding remove_live_entry
  Distinct-family_index = elim (Bool-cases (is_empty s.family_id)) [
    | inl b ↦ rw b c.index_distinct
    | inr b ↦
        rw b (Distinct-delete (family_index_key s.family_id h) d.family_index c.index_distinct)
  ]

  record_row :
      (j : Text) (r : RetiredRefreshToken)
      → get j after.retired_tokens ≡ some r
      → RetiredRow after j r
  record_row j r k =
      let q : RetiredRow d j r = c.retired_row j r (rw (same_retired j) at k) in
      record {
        hash = q.hash;
        family = q.family;
        filed =
            kept_filing _ _
              (λ p.
                not_live_and_retired j r (rw (same_retired j) at k)
                  (family_index_key-injective r.family_id s.family_id j h (inr q.family) own.family
                    p).1)
              q.filed;
      }

  entry_user : (k v : Text) → get k after.user_sessions ≡ some v → UserEntry after k
  entry_user k v g =
      let (n, g') = other_user k v g in
      let q : UserEntry d k = c.user_entry k v g' in
      record {
        session = q.session;
        hash = q.hash;
        stored =
            kept_session q.hash q.session
              (λ p. n (entry_key-removed k q.session q.hash q.stored q.key p)) q.stored;
        key = q.key;
      }

  refile :
      (k v : Text)
      → (is_empty s.family_id ≡ false → k ≢ family_index_key s.family_id h)
      → Filing d k v
      → Filing after k v
  refile k v n (live t j g f key kind) =
      live t j (kept_session j t (λ p. filing_key-removed k t j g f key p n) g) f key kind
  refile k v n (retired r j g key kind) = retired r j (rw same_retired g) key kind

  -- Removing a live row and its filings keeps every part of the invariant.
  pub remove_live_entry-Consistent : Consistent after
  remove_live_entry-Consistent = record {
    user_distinct = Distinct-user_sessions;
    index_distinct = Distinct-family_index;
    session_row = row;
    retired_row = record_row;
    successor = λ j r t a b.
        c.successor j r t (rw same_retired at a) (other_session r.successor_hash t b).1;
    user_entry = entry_user;
    family_entry =
        λ k v g. let (n, g') = other_filing k v g in refile k v n (c.family_entry k v g');
    one_live =
        λ i j t u a b f p. c.one_live i j t u (other_session i t a).1 (other_session j u b).1 f p;
  }
