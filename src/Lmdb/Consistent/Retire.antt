-- ===== src/Lmdb/Consistent/Retire.antt =====
-- Writing one retirement record keeps the databases consistent.
use oidc_exchange.Base.{
  ◌≡◌, ◌≢◌, ◌⊎◌, refl, ◌∙◌, true, some, none, Text, Distinct, get, get-put-some, get-put_ne,
  get-put_self, Distinct-put, inl, inr,
}
use oidc_exchange.Domain.Session.{Session, RetiredRefreshToken, is_valid_family_id}
use oidc_exchange.Lmdb.{Dbs, put_retired, kind_retired, family_index_key}
use oidc_exchange.Lmdb.Consistent.{
  Consistent, SessionRow, RetiredRow, Filing, live, retired, UserEntry,
}
use oidc_exchange.Lmdb.Consistent.Keys.{family_index_key-injective}

-- What the databases must be for the record: its hash is neither live nor retired, and a live
-- successor is of its family.
pub record Retirable (d : Dbs) (r : RetiredRefreshToken) : Type 0 where
  pub family : is_valid_family_id r.family_id ≡ true
  pub not_live : get r.refresh_token_hash d.sessions ≡ none
  pub not_retired : get r.refresh_token_hash d.retired_tokens ≡ none
  pub heir : (s : Session) → get r.successor_hash d.sessions ≡ some s → s.family_id ≡ r.family_id

module _ (d : Dbs) (c : Consistent d) (r : RetiredRefreshToken) (m : Retirable d r) where
  abbrev pub after : Dbs
  after = put_retired d r

  abbrev added : Text
  added = family_index_key r.family_id r.refresh_token_hash

  pub same_session : (j : Text) → get j after.sessions ≡ get j d.sessions
  unfolding put_retired
  same_session j = refl

  same_user : (k : Text) → get k after.user_sessions ≡ get k d.user_sessions
  unfolding put_retired
  same_user k = refl

  pub new_retired : get r.refresh_token_hash after.retired_tokens ≡ some r
  unfolding put_retired
  new_retired = get-put_self r.refresh_token_hash r d.retired_tokens

  pub which_retired :
      (j : Text) (t : RetiredRefreshToken)
      → get j after.retired_tokens ≡ some t
      → ((j ≡ r.refresh_token_hash) × (t ≡ r))
        ⊎ ((j ≢ r.refresh_token_hash) × (get j d.retired_tokens ≡ some t))
  unfolding put_retired
  which_retired j t k = get-put-some r.refresh_token_hash j r t d.retired_tokens k

  pub kept_retired :
      (j : Text) → j ≢ r.refresh_token_hash → get j after.retired_tokens ≡ get j d.retired_tokens
  unfolding put_retired
  kept_retired j n = get-put_ne r.refresh_token_hash j r d.retired_tokens n

  new_filing : get added after.family_index ≡ some kind_retired
  unfolding put_retired
  new_filing = get-put_self added kind_retired d.family_index

  kept_filing :
      (k v : Text) → k ≢ added → get k d.family_index ≡ some v → get k after.family_index ≡ some v
  unfolding put_retired
  kept_filing k v n g = rw (get-put_ne added k kind_retired d.family_index n) g

  which_filing :
      (k v : Text)
      → get k after.family_index ≡ some v
      → ((k ≡ added) × (v ≡ kind_retired)) ⊎ ((k ≢ added) × (get k d.family_index ≡ some v))
  unfolding put_retired
  which_filing k v g = get-put-some added k kind_retired v d.family_index g

  other_hash : (j : Text) (t : Session) → get j d.sessions ≡ some t → j ≢ r.refresh_token_hash
  other_hash j t g p = cc (m.not_live, p, g)

  row : (j : Text) (t : Session) → get j after.sessions ≡ some t → SessionRow after j t
  row j t k =
      let g : get j d.sessions ≡ some t = rw same_session at k in
      let q : SessionRow d j t = c.session_row j t g in
      record {
        hash = q.hash;
        owner = q.owner;
        family = q.family;
        listed = rw same_user q.listed;
        filed = λ f.
            kept_filing _ _
              (λ p.
                other_hash j t g
                  (family_index_key-injective t.family_id r.family_id j r.refresh_token_hash
                    q.family (inr m.family) p).1)
              (q.filed f);
        not_retired = kept_retired j (other_hash j t g) ∙ q.not_retired;
      }

  own_row :
      (j : Text) (t : RetiredRefreshToken) → j ≡ r.refresh_token_hash → t ≡ r → RetiredRow after j t
  own_row j t p q = record { hash = cc; family = cc (m.family); filed = cc (new_filing) }

  record_row :
      (j : Text) (t : RetiredRefreshToken)
      → get j after.retired_tokens ≡ some t
      → RetiredRow after j t
  record_row j t k = elim (which_retired j t k) [
    | inl p ↦ own_row j t p.0 p.1
    | inr p ↦
        let q : RetiredRow d j t = c.retired_row j t p.1 in
        record {
          hash = q.hash;
          family = q.family;
          filed =
              kept_filing _ _
                (λ x.
                  p.0
                    (family_index_key-injective t.family_id r.family_id j r.refresh_token_hash
                      (inr q.family) (inr m.family) x).1)
                q.filed;
        }
  ]

  own_heir :
      (t : RetiredRefreshToken) (s : Session)
      → t ≡ r
      → get t.successor_hash d.sessions ≡ some s
      → s.family_id ≡ t.family_id
  own_heir t s p g = cc (m.heir s (cc))

  heirs :
      (j : Text) (t : RetiredRefreshToken) (s : Session)
      → get j after.retired_tokens ≡ some t
      → get t.successor_hash d.sessions ≡ some s
      → s.family_id ≡ t.family_id
  heirs j t s k g = elim (which_retired j t k) [
    | inl p ↦ own_heir t s p.1 g
    | inr p ↦ c.successor j t s p.1 g
  ]

  entry_user : (k v : Text) → get k after.user_sessions ≡ some v → UserEntry after k
  entry_user k v g =
      let q : UserEntry d k = c.user_entry k v (rw same_user at g) in
      record { session = q.session; hash = q.hash; stored = rw same_session q.stored; key = q.key }

  refile : (k v : Text) → Filing d k v → Filing after k v
  refile k v (live t j g f key kind) = live t j (rw same_session g) f key kind
  refile k v (retired t j g key kind) =
      retired t j (kept_retired j (λ p. absurd (cc (m.not_retired, p, g))) ∙ g) key kind

  entry-Filing : (k v : Text) → get k after.family_index ≡ some v → Filing after k v
  entry-Filing k v g = elim (which_filing k v g) [
    | inl p ↦ retired r r.refresh_token_hash new_retired p.0 p.1
    | inr p ↦ refile k v (c.family_entry k v p.1)
  ]

  Distinct-family_index : Distinct after.family_index
  unfolding put_retired
  Distinct-family_index = Distinct-put added kind_retired d.family_index c.index_distinct

  Distinct-user_sessions : Distinct after.user_sessions
  unfolding put_retired
  Distinct-user_sessions = c.user_distinct

  pub put_retired-Consistent : Consistent after
  put_retired-Consistent = record {
    user_distinct = Distinct-user_sessions;
    index_distinct = Distinct-family_index;
    session_row = row;
    retired_row = record_row;
    successor = λ j t s a b. heirs j t s a (rw same_session at b);
    user_entry = entry_user;
    family_entry = entry-Filing;
    one_live =
        λ i j t u a b f p. c.one_live i j t u (rw same_session at a) (rw same_session at b) f p;
  }
