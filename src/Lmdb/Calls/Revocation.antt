-- ===== src/Lmdb/Calls/Revocation.antt =====
-- What the calls of the store answer after a revocation.
use oidc_exchange.Base.{
  ℕ, ◌+◌, ◌≡◌, ◌⊎◌, refl, sym, ◌∙◌, ap, true, false, some, none, Text, is_empty, get, length, subst,
  inl, inr, Option-cases,
}
use oidc_exchange.Error.{Result, ok}
use oidc_exchange.Domain.Session.{Session, RetiredRefreshToken, unknown, is_valid_family_id}
use oidc_exchange.Lmdb.{Dbs, Lmdb}
use oidc_exchange.Lmdb.Atomic.{next_fault, later_faults, transaction-runs}
use oidc_exchange.Lmdb.Sessions.{
  rotate_refresh_token, resolve_refresh_token, revoke_family, revoke_family_wtxn,
}
use oidc_exchange.Lmdb.Consistent.{Consistent, SessionRow}
use oidc_exchange.Lmdb.Resolve.{classification}
use oidc_exchange.Lmdb.Family.Revoke.{Revoked, revoke_family_wtxn-Revoked, lives, dead}
use oidc_exchange.Lmdb.Calls.{Asked, rotate-absent}
use oidc_exchange.Lmdb.Calls.Reuse.{resolve_refresh_token-classification}

revoke_family-runs :
    (family_id : Text) (r : Lmdb) (n : ℕ) (d' : Dbs)
    → is_valid_family_id family_id ≡ true
    → next_fault r ≡ none
    → revoke_family_wtxn family_id r.dbs ≡ ok (n, d')
    → revoke_family family_id r ≡ (ok n, record r { dbs = d'; faults = later_faults r })
unfolding revoke_family
revoke_family-runs family_id r n d' valid f p =
    rw valid (transaction-runs (revoke_family_wtxn family_id) r n d' f p)

-- Revoking a family of well-formed id succeeds on consistent databases, where LMDB does not fail
-- the transaction: it takes every session and record of the family, leaves those of others as they
-- were, and returns the number it took.
pub revoke_family-Revoked :
    (family_id : Text) (r : Lmdb)
    → (valid : is_valid_family_id family_id ≡ true) (c : Consistent r.dbs) → next_fault r ≡ none
    → let (answer, r') = revoke_family family_id r in
      (answer ≡ ok (length (lives family_id valid r.dbs c) + length (dead family_id valid r.dbs c)))
      × Revoked family_id r.dbs r'.dbs
revoke_family-Revoked family_id r valid c f =
    let (d', p, v) = revoke_family_wtxn-Revoked family_id valid r.dbs c in
    let run = revoke_family-runs family_id r _ d' valid f p in
    subst
      (λ (x : Result ℕ × Lmdb).
        (x.0 ≡ ok (length (lives family_id valid r.dbs c) + length (dead family_id valid r.dbs c)))
        × Revoked family_id r.dbs x.1.dbs)
      (sym run) (refl, v)

-- A hash of the family: a live session's, or that of a retired generation.
abbrev pub InFamily : Text → Text → Dbs → Type 0
InFamily family_id h d =
    ((s : Session) × (get h d.sessions ≡ some s) × (s.family_id ≡ family_id))
    ⊎ ((q : RetiredRefreshToken) × (get h d.retired_tokens ≡ some q) × (q.family_id ≡ family_id))

absent :
    (family_id h : Text) (d d' : Dbs)
    → Consistent d
    → Revoked family_id d d'
    → InFamily family_id h d
    → (get h d'.sessions ≡ none) × (get h d'.retired_tokens ≡ none)
absent family_id h d d' c v (inl (s, g, e)) = (
  elim (Option-cases (get h d'.sessions)) [
    | inl p ↦ p
    | inr (t, p) ↦ absurd (Revoked.no_session v h t p (cc (Revoked.old_session v h t p, g, e)))
  ],
  elim (Option-cases (get h d'.retired_tokens)) [
    | inl p ↦ p
    | inr (q, p) ↦
        absurd (cc (Revoked.old_record v h q p, SessionRow.not_retired (c.session_row h s g)))
  ],
)
absent family_id h d d' c v (inr (q, g, e)) = (
  elim (Option-cases (get h d'.sessions)) [
    | inl p ↦ p
    | inr (t, p) ↦
        absurd (cc (g, SessionRow.not_retired (c.session_row h t (Revoked.old_session v h t p))))
  ],
  elim (Option-cases (get h d'.retired_tokens)) [
    | inl p ↦ p
    | inr (t, p) ↦ absurd (Revoked.no_record v h t p (cc (Revoked.old_record v h t p, g, e)))
  ],
)

classify_unknown :
    (h : Text) (now : ℕ) (d : Dbs)
    → get h d.sessions ≡ none
    → get h d.retired_tokens ≡ none
    → classification h now d ≡ unknown
unfolding classification
classify_unknown h now d p q = rw (p, q) refl

-- After the revocation of a family no hash of it, live or retired, resolves to anything, and a
-- redemption of it is refused. The family id is well formed, the databases were consistent, the hash
-- is not empty, the redemption passes the method's assertions, and LMDB fails none of the calls.
pub revoke_family-refuses :
    (family_id h : Text) (other : Session) (now : ℕ) (r : Lmdb)
    → is_valid_family_id family_id ≡ true
    → Consistent r.dbs
    → InFamily family_id h r.dbs
    → is_empty h ≡ false
    → Asked h other
    → next_fault r ≡ none
    → let r' = (revoke_family family_id r).1 in
      next_fault r' ≡ none
      → ((resolve_refresh_token h now r').0 ≡ ok unknown)
        × ((rotate_refresh_token h other now r').0 ≡ ok false)
revoke_family-refuses family_id h other now r valid c i e a f f' =
    let r' : Lmdb = (revoke_family family_id r).1 in
    let v = (revoke_family-Revoked family_id r valid c f).1 in
    let (p, q) = absent family_id h r.dbs r'.dbs c v i in
    (
      ap (λ x. x.0) (resolve_refresh_token-classification h now r' (Revoked.consistent v) e f')
          ∙ ap ok (classify_unknown h now r'.dbs p q),
      ap (λ x. x.0) (rotate-absent h other now r' a p f'),
    )
