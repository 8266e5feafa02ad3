-- ===== src/Lmdb/Calls.antt =====
-- The calls of the store's redemption path, one after another.
pub mod Unchanged
pub mod Reuse
pub mod Revocation
use oidc_exchange.Base.{
  ℕ, ◌+◌, ◌<◌, ◌≡◌, ◌≢◌, ◌⊎◌, ◌≤◌, refl, sym, ◌∙◌, ap, Bool, true, false, ◌||◌, not, some, none, [],
  Text, is_empty, get, leb, text_eq, text_eq_iff, subst, arith, inl, inr, Bool-cases, Option-cases,
}
use mathlib.Core.Bool.{false≢true}
use oidc_exchange.Error.{Result, ok}
use oidc_exchange.Domain.Session.{
  Session, RetiredRefreshToken, RefreshResolution, is_valid_family_id, retention_deadline, seconds,
  max_timestamp,
}
use oidc_exchange.Lmdb.{Dbs, Lmdb, transaction}
use oidc_exchange.Lmdb.Atomic.{next_fault, later_faults, transaction-ok, transaction-runs}
use oidc_exchange.Lmdb.Sessions.{
  rotate_in, rotate_refresh_token, resolve_in, resolve_refresh_token, revoke_family,
  revoke_family_wtxn,
}
use oidc_exchange.Lmdb.Consistent.{Consistent}
use oidc_exchange.Lmdb.Rotation.{Swapped, left_behind}
use oidc_exchange.Lmdb.Rotation.Effect.{Minted, Effect, rotate_in-Effect}
use oidc_exchange.Lmdb.Rotation.Wins.{rotate_in-wins}
use oidc_exchange.Lmdb.Resolve.{classification, resolve_in-classification}
use oidc_exchange.Lmdb.Family.Revoke.{Revoked, revoke_family_wtxn-Revoked}

-- The outer assertions of the swap hold.
abbrev pub Asked : Text → Session → Type 0
Asked live_hash replacement =
    (is_valid_family_id replacement.family_id ≡ true) × (live_hash ≢ replacement.refresh_token_hash)

rotate-Asked :
    (live_hash : Text) (replacement : Session) (now : ℕ) (r : Lmdb)
    → Asked live_hash replacement
    → rotate_refresh_token live_hash replacement now r
      ≡ transaction (rotate_in live_hash replacement r.reuse_retention_secs now) r
unfolding rotate_refresh_token
rotate-Asked live_hash replacement now r a =
    ground (arith, a.0, a.1, text_eq_iff live_hash replacement.refresh_token_hash)

-- A redemption of a live hash for a minted replacement of the same user and family succeeds, where
-- LMDB does not fail the transaction, the retention is not zero and the instant that it ends at, from
-- now, is one that `chrono` can represent. It has the whole effect on the rows, and the databases
-- stay consistent as they were.
pub rotate_refresh_token-wins :
    (live_hash : Text) (replacement : Session) (now : ℕ) (r : Lmdb) (live : Session)
    → Consistent r.dbs
    → Minted live_hash replacement r.dbs
    → Swapped live_hash replacement r.reuse_retention_secs now r.dbs live
    → 0 < r.reuse_retention_secs
    → now + seconds r.reuse_retention_secs < seconds (max_timestamp + 1)
    → next_fault r ≡ none
    → let (answer, r') = rotate_refresh_token live_hash replacement now r in
      (answer ≡ ok true) × Effect live_hash replacement r.reuse_retention_secs now r.dbs live r'.dbs
rotate_refresh_token-wins live_hash replacement now r live c m s pos fits f =
    let (d', h) =
      rotate_in-wins live_hash replacement r.reuse_retention_secs now r.dbs c live s pos fits in
    let e =
      rotate_in-Effect live_hash replacement r.reuse_retention_secs now r.dbs c m live true d'
        s.found h in
    let run =
      rotate-Asked live_hash replacement now r (m.family, m.different)
      ∙ transaction-runs (rotate_in live_hash replacement r.reuse_retention_secs now) r true d' f
          h in
    (
      ap (λ x. x.0) run,
      subst
          (λ (x : Result Bool × Lmdb).
            Effect live_hash replacement r.reuse_retention_secs now r.dbs live x.1.dbs)
          (sym run) e.1,
    )

pub rotate_in-absent :
    (live_hash : Text) (replacement : Session) (secs now : ℕ) (d : Dbs)
    → get live_hash d.sessions ≡ none
    → rotate_in live_hash replacement secs now d ≡ ok (false, d)
unfolding rotate_in
rotate_in-absent live_hash replacement secs now d h = rw h refl

-- A redemption of a hash that is not live returns `false` and writes nothing.
pub rotate-absent :
    (live_hash : Text) (replacement : Session) (now : ℕ) (r : Lmdb)
    → Asked live_hash replacement
    → get live_hash r.dbs.sessions ≡ none
    → next_fault r ≡ none
    → rotate_refresh_token live_hash replacement now r
      ≡ (ok false, record r { faults = later_faults r })
rotate-absent live_hash replacement now r a h f =
    rotate-Asked live_hash replacement now r a
    ∙ transaction-runs (rotate_in live_hash replacement r.reuse_retention_secs now) r false r.dbs f
        (rotate_in-absent live_hash replacement r.reuse_retention_secs now r.dbs h)

pub found-or-false :
    (live_hash : Text) (replacement : Session) (now : ℕ) (r : Lmdb)
    → Asked live_hash replacement
    → (rotate_refresh_token live_hash replacement now r).0 ≡ ok true
    → (live : Session) × (get live_hash r.dbs.sessions ≡ some live)
      × (rotate_in live_hash replacement r.reuse_retention_secs now r.dbs
          ≡ ok (true, (rotate_refresh_token live_hash replacement now r).1.dbs))
found-or-false live_hash replacement now r a won =
    let body = rotate_in live_hash replacement r.reuse_retention_secs now in
    let asked = rotate-Asked live_hash replacement now r a in
    let ran =
      transaction-ok body r true (sym (ap (λ x. x.0) asked) ∙ won)
      ∙ ap (λ x. ok (true, x.1.dbs)) (sym asked) in
    elim (Option-cases (get live_hash r.dbs.sessions)) [
      | inl p ↦
          absurd
            (cc (ran, rotate_in-absent live_hash replacement r.reuse_retention_secs now r.dbs p))
      | inr p ↦ (p.0, p.1, ran)
    ]

-- Single redemption: once a redemption of a hash has won, every redemption of that hash by
-- whatever replacement loses and writes nothing. The databases were consistent before, the winning
-- replacement was minted for them, the other one passes the method's assertions, and LMDB does not
-- fail the later transaction.
pub rotate-rotate :
    (live_hash : Text) (replacement other : Session) (now later : ℕ) (r : Lmdb)
    → Consistent r.dbs
    → Minted live_hash replacement r.dbs
    → Asked live_hash other
    → let (answer, r') = rotate_refresh_token live_hash replacement now r in
      answer ≡ ok true
      → next_fault r' ≡ none
      → rotate_refresh_token live_hash other later r'
        ≡ (ok false, record r' { faults = later_faults r' })
rotate-rotate live_hash replacement other now later r c m a won f =
    let (live, found, ran) =
      found-or-false live_hash replacement now r (m.family, m.different) won in
    let r' : Lmdb = (rotate_refresh_token live_hash replacement now r).1 in
    let e =
      rotate_in-Effect live_hash replacement r.reuse_retention_secs now r.dbs c m live true r'.dbs
        found ran in
    rotate-absent live_hash other later r' a (Effect.gone e.1) f
