-- ===== src/Lmdb/Consistent/Install.antt =====
-- Installing one live generation keeps the databases consistent.
use oidc_exchange.Base.{
  ◌≡◌, ◌≢◌, ◌⊎◌, refl, sym, ◌∙◌, ap, false, some, none, [], Text, Distinct, is_empty, has_char, get,
  get-put-some, get-put_ne, get-put_self, Distinct-put, inl, inr, Bool-cases,
}
use oidc_exchange.Domain.Session.{Session, RetiredRefreshToken}
use oidc_exchange.Lmdb.{Dbs, install_live_entry, kind_live, user_session_key, family_index_key}
use oidc_exchange.Lmdb.Consistent.{
  Consistent, SessionRow, RetiredRow, Filing, live, retired, UserEntry,
}
use oidc_exchange.Lmdb.Consistent.Keys.{
  IsFamily, user_session_key-injective, family_index_key-injective,
}

-- What the databases must be for the session: its hash is new, a record that names it as successor
-- is of its family, and its family has no live generation.
pub record Installable (d : Dbs) (s : Session) : Type 0 where
  pub owner : has_char b':' s.user_id ≡ false
  pub family : IsFamily s.family_id
  pub not_live : get s.refresh_token_hash d.sessions ≡ none
  pub not_retired : get s.refresh_token_hash d.retired_tokens ≡ none
  pub heir :
      (h : Text) (r : RetiredRefreshToken)
      → get h d.retired_tokens ≡ some r
      → r.successor_hash ≡ s.refresh_token_hash
      → s.family_id ≡ r.family_id
  pub alone :
      is_empty s.family_id ≡ false
      → (j : Text) (t : Session) → get j d.sessions ≡ some t
      → s.family_id ≢ t.family_id

module _ (d : Dbs) (c : Consistent d) (s : Session) (m : Installable d s) where
  abbrev pub after : Dbs
  after = install_live_entry d s

  abbrev user_key : Text
  user_key = user_session_key s.user_id s.refresh_token_hash

  abbrev family_key : Text
  family_key = family_index_key s.family_id s.refresh_token_hash

  pub same_retired : (j : Text) → get j after.retired_tokens ≡ get j d.retired_tokens
  unfolding install_live_entry
  same_retired j = refl

  pub new_session : get s.refresh_token_hash after.sessions ≡ some s
  unfolding install_live_entry
  new_session = get-put_self s.refresh_token_hash s d.sessions

  pub which_session :
      (j : Text) (t : Session)
      → get j after.sessions ≡ some t
      → ((j ≡ s.refresh_token_hash) × (t ≡ s))
        ⊎ ((j ≢ s.refresh_token_hash) × (get j d.sessions ≡ some t))
  unfolding install_live_entry
  which_session j t k = get-put-some s.refresh_token_hash j s t d.sessions k

  pub kept_session : (j : Text) → j ≢ s.refresh_token_hash → get j after.sessions ≡ get j d.sessions
  unfolding install_live_entry
  kept_session j n = get-put_ne s.refresh_token_hash j s d.sessions n

  new_user : get user_key after.user_sessions ≡ some []
  unfolding install_live_entry
  new_user = get-put_self user_key [] d.user_sessions

  which_user :
      (k v : Text)
      → get k after.user_sessions ≡ some v
      → ((k ≡ user_key) × (v ≡ [])) ⊎ ((k ≢ user_key) × (get k d.user_sessions ≡ some v))
  unfolding install_live_entry
  which_user k v g = get-put-some user_key k [] v d.user_sessions g

  kept_user :
      (k v : Text)
      → k ≢ user_key
      → get k d.user_sessions ≡ some v
      → get k after.user_sessions ≡ some v
  unfolding install_live_entry
  kept_user k v n g = rw (get-put_ne user_key k [] d.user_sessions n) g

  new_filing : is_empty s.family_id ≡ false → get family_key after.family_index ≡ some kind_live
  unfolding install_live_entry
  new_filing b = rw b (get-put_self family_key kind_live d.family_index)

  which_filing :
      (k v : Text)
      → get k after.family_index ≡ some v
      → ((k ≡ family_key) × (v ≡ kind_live) × (is_empty s.family_id ≡ false))
        ⊎ (get k d.family_index ≡ some v)
  unfolding install_live_entry
  which_filing k v g = elim (Bool-cases (is_empty s.family_id)) [
    | inl b ↦ inr (rw b at g)
    | inr b ↦ elim (get-put-some family_key k kind_live v d.family_index (rw b at g)) [
      | inl p ↦ inl (p.0, p.1, b)
      | inr p ↦ inr p.1
    ]
  ]

  kept_filing :
      (k v : Text)
      → k ≢ family_key
      → get k d.family_index ≡ some v
      → get k after.family_index ≡ some v
  unfolding install_live_entry
  kept_filing k v n g = elim (Bool-cases (is_empty s.family_id)) [
    | inl b ↦ rw b g
    | inr b ↦ rw b (rw (get-put_ne family_key k kind_live d.family_index n) g)
  ]

  other_hash : (j : Text) (t : Session) → get j d.sessions ≡ some t → j ≢ s.refresh_token_hash
  other_hash j t g p = cc (m.not_live, p, g)

  other_retired :
      (j : Text) (t : RetiredRefreshToken)
      → get j d.retired_tokens ≡ some t
      → j ≢ s.refresh_token_hash
  other_retired j t g p = cc (m.not_retired, p, g)

  own_row : (j : Text) (t : Session) → j ≡ s.refresh_token_hash → t ≡ s → SessionRow after j t
  own_row j t p q = record {
    hash = cc;
    owner = cc (m.owner);
    family = rw q m.family;
    listed = cc (new_user);
    filed = λ f. rw (p, q) (new_filing (rw q at f));
    not_retired = cc (same_retired j, m.not_retired);
  }

  row : (j : Text) (t : Session) → get j after.sessions ≡ some t → SessionRow after j t
  row j t k = elim (which_session j t k) [
    | inl p ↦ own_row j t p.0 p.1
    | inr p ↦
        let q : SessionRow d j t = c.session_row j t p.1 in
        record {
          hash = q.hash;
          owner = q.owner;
          family = q.family;
          listed =
              kept_user _ _
                (λ x.
                  p.0
                    (user_session_key-injective t.user_id s.user_id j s.refresh_token_hash q.owner
                      m.owner x).1)
                q.listed;
          filed = λ f.
              kept_filing _ _
                (λ x.
                  p.0
                    (family_index_key-injective t.family_id s.family_id j s.refresh_token_hash
                      q.family m.family x).1)
                (q.filed f);
          not_retired = same_retired j ∙ q.not_retired;
        }
  ]

  record_row :
      (j : Text) (t : RetiredRefreshToken)
      → get j after.retired_tokens ≡ some t
      → RetiredRow after j t
  record_row j t k =
      let g : get j d.retired_tokens ≡ some t = rw same_retired at k in
      let q : RetiredRow d j t = c.retired_row j t g in
      record {
        hash = q.hash;
        family = q.family;
        filed =
            kept_filing _ _
              (λ x.
                other_retired j t g
                  (family_index_key-injective t.family_id s.family_id j s.refresh_token_hash
                    (inr q.family) m.family x).1)
              q.filed;
      }

  heirs :
      (j : Text) (t : RetiredRefreshToken) (u : Session)
      → get j d.retired_tokens ≡ some t
      → get t.successor_hash after.sessions ≡ some u
      → u.family_id ≡ t.family_id
  heirs j t u g k = elim (which_session t.successor_hash u k) [
    | inl p ↦ ap (λ (x : Session). x.family_id) p.1 ∙ m.heir j t g p.0
    | inr p ↦ c.successor j t u g p.1
  ]

  entry_user : (k v : Text) → get k after.user_sessions ≡ some v → UserEntry after k
  entry_user k v g = elim (which_user k v g) [
    | inl p ↦ record { session = s; hash = s.refresh_token_hash; stored = new_session; key = p.0 }
    | inr p ↦
        let q : UserEntry d k = c.user_entry k v p.1 in
        record {
          session = q.session;
          hash = q.hash;
          stored = kept_session q.hash (other_hash q.hash q.session q.stored) ∙ q.stored;
          key = q.key;
        }
  ]

  refile : (k v : Text) → Filing d k v → Filing after k v
  refile k v (live t j g f key kind) = live t j (kept_session j (other_hash j t g) ∙ g) f key kind
  refile k v (retired t j g key kind) = retired t j (same_retired j ∙ g) key kind

  entry-Filing : (k v : Text) → get k after.family_index ≡ some v → Filing after k v
  entry-Filing k v g = elim (which_filing k v g) [
    | inl p ↦ live s s.refresh_token_hash new_session p.2 p.0 p.1
    | inr p ↦ refile k v (c.family_entry k v p)
  ]

  lone_new :
      (i j : Text) (t u : Session)
      → i ≡ s.refresh_token_hash
      → t ≡ s
      → get j after.sessions ≡ some u
      → is_empty t.family_id ≡ false
      → t.family_id ≡ u.family_id
      → i ≡ j
  lone_new i j t u p q b f x = elim (which_session j u b) [
    | inl y ↦ cc (y.0)
    | inr y ↦ absurd (m.alone (rw q at f) j u y.1 (cc))
  ]

  lone :
      (i j : Text) (t u : Session)
      → get i after.sessions ≡ some t
      → get j after.sessions ≡ some u
      → is_empty t.family_id ≡ false
      → t.family_id ≡ u.family_id
      → i ≡ j
  lone i j t u a b f x = elim (which_session i t a) [
    | inl p ↦ lone_new i j t u p.0 p.1 b f x
    | inr p ↦ elim (which_session j u b) [
      | inl y ↦ sym (lone_new j i u t y.0 y.1 a (rw x at f) (sym x))
      | inr y ↦ c.one_live i j t u p.1 y.1 f x
    ]
  ]

  Distinct-user_sessions : Distinct after.user_sessions
  unfolding install_live_entry
  Distinct-user_sessions = Distinct-put user_key [] d.user_sessions c.user_distinct

  Distinct-family_index : Distinct after.family_index
  unfolding install_live_entry
  Distinct-family_index = elim (Bool-cases (is_empty s.family_id)) [
    | inl b ↦ rw b c.index_distinct
    | inr b ↦ rw b (Distinct-put family_key kind_live d.family_index c.index_distinct)
  ]

  pub install_live_entry-Consistent : Consistent after
  install_live_entry-Consistent = record {
    user_distinct = Distinct-user_sessions;
    index_distinct = Distinct-family_index;
    session_row = row;
    retired_row = record_row;
    successor = λ j t u a b. heirs j t u (rw same_retired at a) b;
    user_entry = entry_user;
    family_entry = entry-Filing;
    one_live = lone;
  }
