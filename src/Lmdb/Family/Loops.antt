-- ===== src/Lmdb/Family/Loops.antt =====
-- The two loops of `revoke_family_wtxn`: with every listed row stored in the family, they end with
-- no error, and remove exactly the listed rows.
use oidc_exchange.Base.{
  ℕ, ◌+◌, ◌≡◌, refl, sym, ◌∙◌, ap, true, false, some, none, List, [], ◌∷◌, Text, text_eq_iff, get,
  arith, member, Nodup, member-head, member-tail, member_ne, member-cons_false, member-cons_head,
  member-nil, subst, Bool-cases, inl, inr, length,
}
use native.Mathlib.Nat.{add-zero}
use mathlib.Core.Bool.{false≢true}
use oidc_exchange.Error.{ok}
use oidc_exchange.Domain.Session.{Session, RetiredRefreshToken}
use oidc_exchange.Lmdb.{Dbs, remove_live_entry, remove_retired_entry}
use oidc_exchange.Lmdb.Sessions.{remove_family_sessions, remove_family_records}
use oidc_exchange.Lmdb.Consistent.{Consistent}
use oidc_exchange.Lmdb.Consistent.Remove
use oidc_exchange.Lmdb.Consistent.Forget

-- Exactly the listed live rows are gone.
pub record Cleared (hashes : List Text) (d d' : Dbs) : Type 0 where
  pub consistent : Consistent d'
  pub gone : (h : Text) → member h hashes ≡ true → get h d'.sessions ≡ none
  pub kept : (h : Text) → member h hashes ≡ false → get h d'.sessions ≡ get h d.sessions
  pub records : (h : Text) → get h d'.retired_tokens ≡ get h d.retired_tokens

-- Exactly the listed records are gone.
pub record Forgotten (hashes : List Text) (d d' : Dbs) : Type 0 where
  pub consistent : Consistent d'
  pub gone : (h : Text) → member h hashes ≡ true → get h d'.retired_tokens ≡ none
  pub kept : (h : Text) → member h hashes ≡ false → get h d'.retired_tokens ≡ get h d.retired_tokens
  pub sessions : (h : Text) → get h d'.sessions ≡ get h d.sessions

Cleared-nil : (d : Dbs) → Consistent d → Cleared [] d d
Cleared-nil d c = record {
  consistent = c;
  gone = λ h m. absurd (false≢true (sym (member-nil h) ∙ m));
  kept = λ h m. refl;
  records = λ h. refl;
}

Forgotten-nil : (d : Dbs) → Consistent d → Forgotten [] d d
Forgotten-nil d c = record {
  consistent = c;
  gone = λ h m. absurd (false≢true (sym (member-nil h) ∙ m));
  kept = λ h m. refl;
  sessions = λ h. refl;
}

module _ (x : Text) (xs : List Text) (d : Dbs) (c : Consistent d) (s : Session)
    (e : get x d.sessions ≡ some s) (d' : Dbs) (z : Cleared xs (remove_live_entry d x s).1 d') where
  cleared_head : (h : Text) → h ≡ x → get h (remove_live_entry d x s).1.sessions ≡ none
  cleared_head h p = rw p (Remove.removed d c x s e)

  Cleared-step : Cleared (x ∷ xs) d d'
  Cleared-step = record {
    consistent = z.consistent;
    gone = λ h m. elim (Bool-cases (member h xs)) [
      | inl b ↦ z.gone h b
      | inr b ↦ z.kept h b ∙ cleared_head h (member-cons_head h x xs m b)
    ];
    kept = λ h m.
        let p = member-cons_false h x xs m in
        z.kept h p.1 ∙ Remove.unchanged_session d c x s e h p.0;
    records = λ h. z.records h ∙ Remove.same_retired d c x s e h;
  }

module _ (xs : List Text) (d : Dbs) (c : Consistent d) (r : RetiredRefreshToken)
    (e : get r.refresh_token_hash d.retired_tokens ≡ some r) (d' : Dbs)
    (z : Forgotten xs (remove_retired_entry d r).1 d') where
  forgotten_head :
      (h : Text)
      → h ≡ r.refresh_token_hash
      → get h (remove_retired_entry d r).1.retired_tokens ≡ none
  forgotten_head h p = rw p (Forget.removed d c r e)

  Forgotten-step : Forgotten (r.refresh_token_hash ∷ xs) d d'
  Forgotten-step = record {
    consistent = z.consistent;
    gone = λ h m. elim (Bool-cases (member h xs)) [
      | inl b ↦ z.gone h b
      | inr b ↦ z.kept h b ∙ forgotten_head h (member-cons_head h r.refresh_token_hash xs m b)
    ];
    kept = λ h m.
        let p = member-cons_false h r.refresh_token_hash xs m in
        z.kept h p.1 ∙ Forget.unchanged_retired d c r e h p.0;
    sessions = λ h. z.sessions h ∙ Forget.same_session d c r e h;
  }

module _ (family_id : Text) where
  abbrev Listed : List Text → Dbs → Type 0
  Listed hashes d =
      (h : Text)
      → member h hashes ≡ true
      → (s : Session) × (get h d.sessions ≡ some s) × (s.family_id ≡ family_id)

  abbrev Filed : List Text → Dbs → Type 0
  Filed hashes d =
      (h : Text)
      → member h hashes ≡ true
      → (r : RetiredRefreshToken) × (get h d.retired_tokens ≡ some r) × (r.family_id ≡ family_id)

  sessions_step :
      (x : Text) (xs : List Text) (n : ℕ) (d : Dbs) (s : Session)
      → get x d.sessions ≡ some s
      → s.family_id ≡ family_id
      → remove_family_sessions family_id (x ∷ xs) n d
        ≡ remove_family_sessions family_id xs (n + 1) (remove_live_entry d x s).1
  unfolding remove_family_sessions
  sessions_step x xs n d s g f = rw (g, (text_eq_iff s.family_id family_id).1 f) refl

  records_step :
      (x : Text) (xs : List Text) (n : ℕ) (d : Dbs) (r : RetiredRefreshToken)
      → get x d.retired_tokens ≡ some r
      → r.family_id ≡ family_id
      → remove_family_records family_id (x ∷ xs) n d
        ≡ remove_family_records family_id xs (n + 1) (remove_retired_entry d r).1
  unfolding remove_family_records
  records_step x xs n d r g f = rw (g, (text_eq_iff r.family_id family_id).1 f) refl

  pub remove_family_sessions-Cleared :
      (hashes : List Text) (n : ℕ) (d : Dbs)
      → Consistent d
      → Nodup hashes
      → Listed hashes d
      → (d' : Dbs) × (remove_family_sessions family_id hashes n d ≡ ok (n + length hashes, d'))
        × Cleared hashes d d'
  remove_family_sessions-Cleared [] n d c u f =
      (d, unfold remove_family_sessions in rw add-zero refl, Cleared-nil d c)
  remove_family_sessions-Cleared (x ∷ xs) n d c u f =
      let (s, e, g) = f x (member-head x x xs refl) in
      let d1 : Dbs = (remove_live_entry d x s).1 in
      let (d', p, z) =
        remove_family_sessions-Cleared xs (n + 1) d1 (Remove.remove_live_entry-Consistent d c x s e)
          u.1
          (λ h m.
            let (t, a, b) = f h (member-tail h x xs m) in
            (t, Remove.unchanged_session d c x s e h (member_ne h x xs u.0 m) ∙ a, b)) in
      (
        d',
        sessions_step x xs n d s e g ∙ p ∙ ap (λ (k : ℕ). ok (k, d')) (omega arith),
        Cleared-step x xs d c s e d' z,
      )

  pub remove_family_records-Forgotten :
      (hashes : List Text) (n : ℕ) (d : Dbs)
      → Consistent d
      → Nodup hashes
      → Filed hashes d
      → (d' : Dbs) × (remove_family_records family_id hashes n d ≡ ok (n + length hashes, d'))
        × Forgotten hashes d d'
  remove_family_records-Forgotten [] n d c u f =
      (d, unfold remove_family_records in rw add-zero refl, Forgotten-nil d c)
  remove_family_records-Forgotten (x ∷ xs) n d c u f =
      let (r, e, g) = f x (member-head x x xs refl) in
      let q : r.refresh_token_hash ≡ x = (c.retired_row x r e).hash in
      let e' : get r.refresh_token_hash d.retired_tokens ≡ some r =
        subst (λ (y : Text). get y d.retired_tokens ≡ some r) (sym q) e in
      let d1 : Dbs = (remove_retired_entry d r).1 in
      let (d', p, z) =
        remove_family_records-Forgotten xs (n + 1) d1
          (Forget.remove_retired_entry-Consistent d c r e') u.1
          (λ h m.
            let (t, a, b) = f h (member-tail h x xs m) in
            (
              t,
              Forget.unchanged_retired d c r e' h (λ o. member_ne h x xs u.0 m (o ∙ q)) ∙ a,
              b,
            )) in
      (
        d',
        records_step x xs n d r e g ∙ p ∙ ap (λ (k : ℕ). ok (k, d')) (omega arith),
        subst (λ (y : Text). Forgotten (y ∷ xs) d d') q (Forgotten-step xs d c r e' d' z),
      )
