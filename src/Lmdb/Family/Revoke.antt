-- ===== src/Lmdb/Family/Revoke.antt =====
-- The whole of `revoke_family_wtxn`: it cannot fail on consistent databases, and takes the family's
-- rows and nothing else.
use oidc_exchange.Base.{
  ◌+◌, ◌≡◌, ◌≢◌, sym, ◌∙◌, true, some, List, Text, get, member, inl, inr, length, Bool-cases,
}
use native.Mathlib.Nat.{zero-add}
use mathlib.Core.Bool.{false≢true}
use oidc_exchange.Error.{ok}
use oidc_exchange.Domain.Session.{Session, RetiredRefreshToken, is_valid_family_id}
use oidc_exchange.Lmdb.{Dbs, kind_live, kind_retired}
use oidc_exchange.Lmdb.Sessions.{revoke_family_wtxn, of_kind, family_entries}
use oidc_exchange.Lmdb.Consistent.{Consistent}
use oidc_exchange.Lmdb.Family.Entries.{
  of_kind-Nodup, Distinct-family_entries, entries-kinds_known, live_hashes, retired_hashes,
  live_listed, retired_listed,
}
use oidc_exchange.Lmdb.Family.Loops.{
  Cleared, Forgotten, remove_family_sessions-Cleared, remove_family_records-Forgotten,
}

-- The family is gone, and the rows of other families are as they were.
pub record Revoked (family_id : Text) (d d' : Dbs) : Type 0 where
  pub consistent : Consistent d'
  pub no_session : (h : Text) (s : Session) → get h d'.sessions ≡ some s → s.family_id ≢ family_id
  pub no_record :
      (h : Text) (r : RetiredRefreshToken)
      → get h d'.retired_tokens ≡ some r
      → r.family_id ≢ family_id
  pub old_session :
      (h : Text) (s : Session) → get h d'.sessions ≡ some s → get h d.sessions ≡ some s
  pub old_record :
      (h : Text) (r : RetiredRefreshToken)
      → get h d'.retired_tokens ≡ some r
      → get h d.retired_tokens ≡ some r
  pub other_session :
      (h : Text) (s : Session)
      → get h d.sessions ≡ some s
      → s.family_id ≢ family_id
      → get h d'.sessions ≡ some s
  pub other_record :
      (h : Text) (r : RetiredRefreshToken)
      → get h d.retired_tokens ≡ some r
      → r.family_id ≢ family_id
      → get h d'.retired_tokens ≡ some r

module _ (family_id : Text) (valid : is_valid_family_id family_id ≡ true) (d : Dbs)
    (c : Consistent d) where
  abbrev pub lives : List Text
  lives = of_kind kind_live (family_entries family_id d)

  abbrev pub dead : List Text
  dead = of_kind kind_retired (family_entries family_id d)

  both : (d1 d2 : Dbs) → Cleared lives d d1 → Forgotten dead d1 d2 → Revoked family_id d d2
  both d1 d2 a b = record {
    consistent = b.consistent;
    no_session = λ h s g e. elim (Bool-cases (member h lives)) [
      | inl m ↦ cc (a.gone h m, b.sessions h, g)
      | inr m ↦
          false≢true
            (sym m ∙ live_listed family_id valid d c h s (sym (b.sessions h ∙ a.kept h m) ∙ g) e)
    ];
    no_record = λ h r g e. elim (Bool-cases (member h dead)) [
      | inl m ↦ cc (b.gone h m, g)
      | inr m ↦
          false≢true
            (sym m ∙ retired_listed family_id valid d c h r (sym (b.kept h m ∙ a.records h) ∙ g) e)
    ];
    old_session = λ h s g. elim (Bool-cases (member h lives)) [
      | inl m ↦ cc (a.gone h m, b.sessions h, g)
      | inr m ↦ sym (b.sessions h ∙ a.kept h m) ∙ g
    ];
    old_record = λ h r g. elim (Bool-cases (member h dead)) [
      | inl m ↦ cc (b.gone h m, g)
      | inr m ↦ sym (b.kept h m ∙ a.records h) ∙ g
    ];
    other_session = λ h s g n. elim (Bool-cases (member h lives)) [
      | inl m ↦ let (t, e, f) = live_hashes family_id valid d c h m in absurd (n (cc (e, g, f)))
      | inr m ↦ b.sessions h ∙ a.kept h m ∙ g
    ];
    other_record = λ h r g n. elim (Bool-cases (member h dead)) [
      | inl m ↦ let (t, e, f) = retired_hashes family_id valid d c h m in absurd (n (cc (e, g, f)))
      | inr m ↦ b.kept h m ∙ a.records h ∙ g
    ];
  }

  still_filed :
      (d1 : Dbs)
      → Cleared lives d d1
      → (h : Text) → member h dead ≡ true
      → (r : RetiredRefreshToken) × (get h d1.retired_tokens ≡ some r) × (r.family_id ≡ family_id)
  still_filed d1 a h m =
      let (r, e, f) = retired_hashes family_id valid d c h m in (r, a.records h ∙ e, f)

  -- The revocation returns the number of rows that it took.
  pub revoke_family_wtxn-Revoked :
      (d' : Dbs) × (revoke_family_wtxn family_id d ≡ ok (length lives + length dead, d'))
      × Revoked family_id d d'
  unfolding revoke_family_wtxn
  revoke_family_wtxn-Revoked =
      let entries_distinct = Distinct-family_entries family_id valid d c in
      let (d1, p, a) =
        remove_family_sessions-Cleared family_id lives 0 d c
          (of_kind-Nodup kind_live _ entries_distinct) (live_hashes family_id valid d c) in
      let (d2, q, b) =
        remove_family_records-Forgotten family_id dead (length lives) d1 a.consistent
          (of_kind-Nodup kind_retired _ entries_distinct) (still_filed d1 a) in
      (d2, rw (entries-kinds_known family_id valid d c, p, zero-add) q, both d1 d2 a b)
