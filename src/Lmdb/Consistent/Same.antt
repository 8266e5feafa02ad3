-- ===== src/Lmdb/Consistent/Same.antt =====
-- The invariant reads the databases only through their keys, and removing a row that is not there
-- changes nothing that can be read.
use oidc_exchange.Base.{
  ◌≡◌, sym, ◌∙◌, false, some, none, Text, Distinct, has_char, get, inl, inr, Option-cases,
}
use oidc_exchange.Domain.Session.{RetiredRefreshToken}
use oidc_exchange.Lmdb.{Dbs, user_session_key, family_index_key}
use oidc_exchange.Lmdb.Consistent.{
  Consistent, SessionRow, RetiredRow, Filing, live, retired, UserEntry,
}
use oidc_exchange.Lmdb.Consistent.Keys.{
  IsFamily, user_session_key-injective, family_index_key-injective,
}

-- Every read gives the same.
pub record SameRows (d d' : Dbs) : Type 0 where
  pub sessions : (k : Text) → get k d'.sessions ≡ get k d.sessions
  pub users : (k : Text) → get k d'.user_sessions ≡ get k d.user_sessions
  pub records : (k : Text) → get k d'.retired_tokens ≡ get k d.retired_tokens
  pub index : (k : Text) → get k d'.family_index ≡ get k d.family_index
  pub user_distinct : Distinct d'.user_sessions
  pub index_distinct : Distinct d'.family_index

refile : (d d' : Dbs) → SameRows d d' → (k v : Text) → Filing d k v → Filing d' k v
refile d d' e k v (live t j g f key kind) = live t j (e.sessions j ∙ g) f key kind
refile d d' e k v (retired t j g key kind) = retired t j (e.records j ∙ g) key kind

pub SameRows-Consistent : (d d' : Dbs) → SameRows d d' → Consistent d → Consistent d'
SameRows-Consistent d d' e c = record {
  user_distinct = e.user_distinct;
  index_distinct = e.index_distinct;
  session_row = λ h s g.
      let q : SessionRow d h s = c.session_row h s (sym (e.sessions h) ∙ g) in
      record {
        hash = q.hash;
        owner = q.owner;
        family = q.family;
        listed = e.users _ ∙ q.listed;
        filed = λ f. e.index _ ∙ q.filed f;
        not_retired = e.records h ∙ q.not_retired;
      };
  retired_row = λ h r g.
      let q : RetiredRow d h r = c.retired_row h r (sym (e.records h) ∙ g) in
      record { hash = q.hash; family = q.family; filed = e.index _ ∙ q.filed };
  successor = λ h r s g k.
      c.successor h r s (sym (e.records h) ∙ g) (sym (e.sessions r.successor_hash) ∙ k);
  user_entry = λ k v g.
      let q : UserEntry d k = c.user_entry k v (sym (e.users k) ∙ g) in
      record {
        session = q.session;
        hash = q.hash;
        stored = e.sessions q.hash ∙ q.stored;
        key = q.key;
      };
  family_entry = λ k v g. refile d d' e k v (c.family_entry k v (sym (e.index k) ∙ g));
  one_live = λ h j s t a b. c.one_live h j s t (sym (e.sessions h) ∙ a) (sym (e.sessions j) ∙ b);
}

module _ (d : Dbs) (c : Consistent d) (h : Text) (absent : get h d.sessions ≡ none) where
  no_user_entry :
      (u : Text) → has_char b':' u ≡ false → get (user_session_key u h) d.user_sessions ≡ none
  no_user_entry u clean = elim (Option-cases (get (user_session_key u h) d.user_sessions)) [
    | inl e ↦ e
    | inr e ↦
        let q : UserEntry d (user_session_key u h) = c.user_entry _ e.0 e.1 in
        let owner = (c.session_row q.hash q.session q.stored).owner in
        let p = user_session_key-injective u q.session.user_id h q.hash clean owner q.key in
        absurd (cc (q.stored, p.1, absent))
  ]

  live_only :
      (f v : Text)
      → IsFamily f
      → Filing d (family_index_key f h) v
      → (r : RetiredRefreshToken) × (get h d.retired_tokens ≡ some r)
  live_only f v ok' (live t j g full key kind) =
      let p = family_index_key-injective f t.family_id h j ok' (c.session_row j t g).family key in
      absurd (cc (g, p.1, absent))
  live_only f v ok' (retired t j g key kind) =
      let p =
        family_index_key-injective f t.family_id h j ok' (inr (c.retired_row j t g).family) key in
      (t, cc (g, p.1))

  no_filing :
      (f : Text)
      → IsFamily f
      → get h d.retired_tokens ≡ none
      → get (family_index_key f h) d.family_index ≡ none
  no_filing f ok' n = elim (Option-cases (get (family_index_key f h) d.family_index)) [
    | inl e ↦ e
    | inr e ↦ let q = live_only f e.0 ok' (c.family_entry _ e.0 e.1) in absurd (cc (q.1, n))
  ]
