-- ===== src/Lmdb/Consistent/Forget.antt =====
-- Removing one retirement record keeps the databases consistent.
use oidc_exchange.Base.{
  ◌≡◌, ◌≢◌, refl, some, none, Text, Distinct, get, get-delete-some, get-delete_self, get-delete_ne,
  get-delete-none, Distinct-delete, inr,
}
use oidc_exchange.Domain.Session.{Session, RetiredRefreshToken}
use oidc_exchange.Lmdb.{Dbs, remove_retired_entry, family_index_key}
use oidc_exchange.Lmdb.Consistent.{
  Consistent, SessionRow, RetiredRow, Filing, live, retired, UserEntry,
}
use oidc_exchange.Lmdb.Consistent.Keys.{family_index_key-injective}

module _ (d : Dbs) (c : Consistent d) (r : RetiredRefreshToken)
    (e : get r.refresh_token_hash d.retired_tokens ≡ some r) where
  abbrev pub after : Dbs
  after = (remove_retired_entry d r).1

  abbrev gone : Text
  gone = family_index_key r.family_id r.refresh_token_hash

  pub same_session : (j : Text) → get j after.sessions ≡ get j d.sessions
  unfolding remove_retired_entry
  same_session j = refl

  same_user : (k : Text) → get k after.user_sessions ≡ get k d.user_sessions
  unfolding remove_retired_entry
  same_user k = refl

  pub other_retired :
      (j : Text) (t : RetiredRefreshToken)
      → get j after.retired_tokens ≡ some t
      → (j ≢ r.refresh_token_hash) × (get j d.retired_tokens ≡ some t)
  unfolding remove_retired_entry
  other_retired j t k = get-delete-some r.refresh_token_hash j t d.retired_tokens k

  pub unchanged_retired :
      (j : Text) → j ≢ r.refresh_token_hash → get j after.retired_tokens ≡ get j d.retired_tokens
  unfolding remove_retired_entry
  unchanged_retired j n = get-delete_ne r.refresh_token_hash j d.retired_tokens n

  pub removed : get r.refresh_token_hash after.retired_tokens ≡ none
  unfolding remove_retired_entry
  removed = get-delete_self r.refresh_token_hash d.retired_tokens

  pub kept_retired :
      (j : Text) (t : RetiredRefreshToken)
      → j ≢ r.refresh_token_hash
      → get j d.retired_tokens ≡ some t
      → get j after.retired_tokens ≡ some t
  unfolding remove_retired_entry
  kept_retired j t n k = rw (get-delete_ne r.refresh_token_hash j d.retired_tokens n) k

  pub still_absent : (j : Text) → get j d.retired_tokens ≡ none → get j after.retired_tokens ≡ none
  unfolding remove_retired_entry
  still_absent j k = get-delete-none r.refresh_token_hash j d.retired_tokens k

  kept_filing :
      (k v : Text) → k ≢ gone → get k d.family_index ≡ some v → get k after.family_index ≡ some v
  unfolding remove_retired_entry
  kept_filing k v n g = rw (get-delete_ne gone k d.family_index n) g

  other_filing :
      (k v : Text)
      → get k after.family_index ≡ some v
      → (k ≢ gone) × (get k d.family_index ≡ some v)
  unfolding remove_retired_entry
  other_filing k v g = get-delete-some gone k v d.family_index g

  abbrev own : RetiredRow d r.refresh_token_hash r
  own = c.retired_row r.refresh_token_hash r e

  not_live : (j : Text) (t : Session) → get j d.sessions ≡ some t → j ≢ r.refresh_token_hash
  not_live j t g p = cc ((c.session_row j t g).not_retired, p, e)

  row : (j : Text) (t : Session) → get j after.sessions ≡ some t → SessionRow after j t
  row j t k =
      let g : get j d.sessions ≡ some t = rw same_session at k in
      let q : SessionRow d j t = c.session_row j t g in
      record {
        hash = q.hash;
        owner = q.owner;
        family = q.family;
        listed = rw same_user q.listed;
        filed = λ f.
            kept_filing _ _
              (λ p.
                not_live j t g
                  (family_index_key-injective t.family_id r.family_id j r.refresh_token_hash
                    q.family (inr own.family) p).1)
              (q.filed f);
        not_retired = still_absent j q.not_retired;
      }

  record_row :
      (j : Text) (t : RetiredRefreshToken)
      → get j after.retired_tokens ≡ some t
      → RetiredRow after j t
  record_row j t k =
      let (n, g) = other_retired j t k in
      let q : RetiredRow d j t = c.retired_row j t g in
      record {
        hash = q.hash;
        family = q.family;
        filed =
            kept_filing _ _
              (λ p.
                n
                  (family_index_key-injective t.family_id r.family_id j r.refresh_token_hash
                    (inr q.family) (inr own.family) p).1)
              q.filed;
      }

  entry_user : (k v : Text) → get k after.user_sessions ≡ some v → UserEntry after k
  entry_user k v g =
      let q : UserEntry d k = c.user_entry k v (rw same_user at g) in
      record { session = q.session; hash = q.hash; stored = rw same_session q.stored; key = q.key }

  filing_key-removed :
      (k : Text) (t : RetiredRefreshToken) (j : Text)
      → get j d.retired_tokens ≡ some t
      → k ≡ family_index_key t.family_id j
      → j ≡ r.refresh_token_hash
      → k ≡ gone
  filing_key-removed k t j g key p = cc

  refile : (k v : Text) → k ≢ gone → Filing d k v → Filing after k v
  refile k v n (live t j g f key kind) = live t j (rw same_session g) f key kind
  refile k v n (retired t j g key kind) =
      retired t j (kept_retired j t (λ p. n (filing_key-removed k t j g key p)) g) key kind

  Distinct-family_index : Distinct after.family_index
  unfolding remove_retired_entry
  Distinct-family_index = Distinct-delete gone d.family_index c.index_distinct

  Distinct-user_sessions : Distinct after.user_sessions
  unfolding remove_retired_entry
  Distinct-user_sessions = c.user_distinct

  pub remove_retired_entry-Consistent : Consistent after
  remove_retired_entry-Consistent = record {
    user_distinct = Distinct-user_sessions;
    index_distinct = Distinct-family_index;
    session_row = row;
    retired_row = record_row;
    successor = λ j t s a b. c.successor j t s (other_retired j t a).1 (rw same_session at b);
    user_entry = entry_user;
    family_entry =
        λ k v g. let (n, g') = other_filing k v g in refile k v n (c.family_entry k v g');
    one_live =
        λ i j t u a b f p. c.one_live i j t u (rw same_session at a) (rw same_session at b) f p;
  }
