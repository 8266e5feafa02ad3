-- ===== src/Lmdb/Calls/Reuse.antt =====
-- What a hash resolves to after redemptions and revocations.
use oidc_exchange.Base.{
  ℕ, ◌^◌, ◌≤◌, ◌≡◌, ◌≢◌, refl, ◌∙◌, ap, true, false, some, none, Text, is_empty, get, leb,
  if◌then◌else◌, arith,
}
use oidc_exchange.Error.{ok, ◌>>=◌}
use oidc_exchange.Domain.Session.{
  Session, RetiredRefreshToken, live, superseded, retired, unknown, retention_deadline,
  retention_deadline-wrapped,
}
use oidc_exchange.Lmdb.{Dbs, Lmdb}
use oidc_exchange.Lmdb.Atomic.{next_fault, later_faults, transaction-runs}
use oidc_exchange.Lmdb.Sessions.{rotate_refresh_token, resolve_in, resolve_refresh_token}
use oidc_exchange.Lmdb.Consistent.{Consistent}
use oidc_exchange.Lmdb.Rotation.{left_behind}
use oidc_exchange.Lmdb.Rotation.Effect.{Minted, Effect, rotate_in-Effect}
use oidc_exchange.Lmdb.Resolve.{classification, resolve_in-classification}
use oidc_exchange.Lmdb.Calls.{found-or-false}

-- The store classifies a hash by its rows, whatever the state, if LMDB does not fail the read: the
-- assertions of the read never panic on consistent databases. The hash is not empty.
pub resolve_refresh_token-classification :
    (h : Text) (now : ℕ) (r : Lmdb)
    → Consistent r.dbs
    → is_empty h ≡ false
    → next_fault r ≡ none
    → resolve_refresh_token h now r
      ≡ (ok (classification h now r.dbs), record r { faults = later_faults r })
unfolding resolve_refresh_token
resolve_refresh_token-classification h now r c e f =
    let p = resolve_in-classification h now r.dbs c in
    rw e (
      transaction-runs (λ dbs. resolve_in h now dbs >>= λ k. ok (k, dbs)) r
        (classification h now r.dbs) r.dbs f (rw p refl))

classify_live :
    (h : Text) (now : ℕ) (d : Dbs) (s : Session)
    → get h d.sessions ≡ some s
    → classification h now d ≡ live s
unfolding classification
classify_live h now d s g = rw g refl

classify_superseded :
    (h : Text) (now : ℕ) (d : Dbs) (q : RetiredRefreshToken) (s : Session)
    → get h d.sessions ≡ none
    → get h d.retired_tokens ≡ some q
    → get q.successor_hash d.sessions ≡ some s
    → classification h now d ≡ (if leb q.expires_at now then unknown else superseded s q.retired_at)
unfolding classification
classify_superseded h now d q s g k n = ground (arith, g, k, n)

classify_retired :
    (h : Text) (now : ℕ) (d : Dbs) (q : RetiredRefreshToken)
    → get h d.sessions ≡ none
    → get h d.retired_tokens ≡ some q
    → get q.successor_hash d.sessions ≡ none
    → classification h now d
      ≡ (if leb q.expires_at now then unknown else retired q.family_id q.user_id q.retired_at)
unfolding classification
classify_retired h now d q g k n = ground (arith, g, k, n)

-- After a redemption that won, the new hash is live, and the old one is superseded by the new
-- session until the deadline of its retirement record and unknown from then on. The redeemed
-- session was not a legacy row; both hashes are not empty; the databases were consistent, the
-- replacement was minted for them, and LMDB fails no read.
pub rotate-resolve :
    (live_hash : Text) (replacement : Session) (now later : ℕ) (r : Lmdb) (s : Session)
    (expires_at : ℕ)
    → Consistent r.dbs
    → Minted live_hash replacement r.dbs
    → get live_hash r.dbs.sessions ≡ some s
    → is_empty s.family_id ≡ false
    → retention_deadline now r.reuse_retention_secs replacement.expires_at ≡ ok expires_at
    → is_empty live_hash ≡ false
    → is_empty replacement.refresh_token_hash ≡ false
    → let (answer, r') = rotate_refresh_token live_hash replacement now r in
      answer ≡ ok true
      → next_fault r' ≡ none
      → ((resolve_refresh_token replacement.refresh_token_hash later r').0 ≡ ok (live replacement))
        × ((resolve_refresh_token live_hash later r').0
            ≡ ok (if leb expires_at later then unknown else superseded replacement now))
unfolding left_behind
rotate-resolve live_hash replacement now later r s expires_at c m found full deadline e e' won f =
    let r' : Lmdb = (rotate_refresh_token live_hash replacement now r).1 in
    let (t, found', ran) = found-or-false live_hash replacement now r (m.family, m.different) won in
    let ef =
      (rotate_in-Effect live_hash replacement r.reuse_retention_secs now r.dbs c m t true r'.dbs
        found' ran).1 in
    let same : t ≡ s = cc (found, found') in
    let (x, deadline', kept) = Effect.retired ef (rw same full) in
    let same_deadline : x ≡ expires_at = cc (deadline, deadline') in
    let k = Effect.consistent ef in
    (
      ap (λ p. p.0)
            (resolve_refresh_token-classification replacement.refresh_token_hash later r' k e' f)
          ∙ ap ok (
              classify_live replacement.refresh_token_hash later r'.dbs replacement
                (Effect.installed ef)),
      ap (λ p. p.0) (resolve_refresh_token-classification live_hash later r' k e f)
          ∙ ap ok (
              classify_superseded live_hash later r'.dbs (left_behind live_hash t replacement now x)
                replacement (Effect.gone ef) kept (Effect.installed ef)
              ∙ ap (λ y. if leb y later then unknown else superseded replacement now)
                  same_deadline),
    )

won-Effect :
    (live_hash : Text) (replacement : Session) (now : ℕ) (r : Lmdb) (s : Session)
    → Consistent r.dbs
    → Minted live_hash replacement r.dbs
    → get live_hash r.dbs.sessions ≡ some s
    → let (answer, r') = rotate_refresh_token live_hash replacement now r in
      answer ≡ ok true → Effect live_hash replacement r.reuse_retention_secs now r.dbs s r'.dbs
won-Effect live_hash replacement now r s c m found won =
    let r' : Lmdb = (rotate_refresh_token live_hash replacement now r).1 in
    let (t, found', ran) = found-or-false live_hash replacement now r (m.family, m.different) won in
    let same : t ≡ s = cc (found, found') in
    rw same at
      (rotate_in-Effect live_hash replacement r.reuse_retention_secs now r.dbs c m t true r'.dbs
        found' ran).1

-- With a configured retention of 2^63 seconds or more, the seconds are negative once they are cast:
-- after a redemption that won, the old hash is unknown from the instant of the redemption on, so its
-- reuse is never seen. The redeemed session was not a legacy row; the old hash is not empty; the
-- databases were consistent, the replacement was minted for them, its hash is not empty, and LMDB
-- fails no read.
pub rotate-resolve_wrapped :
    (live_hash : Text) (replacement : Session) (now later : ℕ) (r : Lmdb) (s : Session)
    → Consistent r.dbs
    → Minted live_hash replacement r.dbs
    → get live_hash r.dbs.sessions ≡ some s
    → is_empty s.family_id ≡ false
    → 2 ^ 63 ≤ r.reuse_retention_secs
    → now ≤ later
    → is_empty live_hash ≡ false
    → is_empty replacement.refresh_token_hash ≡ false
    → let (answer, r') = rotate_refresh_token live_hash replacement now r in
      answer ≡ ok true
      → next_fault r' ≡ none
      → (resolve_refresh_token live_hash later r').0 ≡ ok unknown
rotate-resolve_wrapped live_hash replacement now later r s c m found full wide after e e' won f =
    let ef = won-Effect live_hash replacement now r s c m found won in
    let (x, deadline, kept) = Effect.retired ef full in
    let early =
      retention_deadline-wrapped now r.reuse_retention_secs replacement.expires_at x wide
        deadline in
    (rotate-resolve live_hash replacement now later r s x c m found full deadline e e' won f).1
    ∙ ground (arith, early, after)

-- Reuse: once the successor of a redeemed hash was itself redeemed, the first hash resolves to its
-- retired family until the deadline of its record, and to unknown from then on, never to a session. Both redemptions won, of `first`
-- for `second` and of `second`'s hash for `third`; the first session was not a legacy row,
-- the first hash is not empty and differs from `third`'s, the databases were consistent, each
-- replacement was minted for those it met, and LMDB does not fail the read.
pub rotate-rotate-resolve :
    (first : Text) (second third : Session) (now then' later : ℕ) (r : Lmdb) (s : Session)
    (expires_at : ℕ)
    → Consistent r.dbs
    → Minted first second r.dbs
    → get first r.dbs.sessions ≡ some s
    → is_empty s.family_id ≡ false
    → retention_deadline now r.reuse_retention_secs second.expires_at ≡ ok expires_at
    → is_empty first ≡ false
    → let (answer, r') = rotate_refresh_token first second now r in
      answer ≡ ok true
      → Minted second.refresh_token_hash third r'.dbs
      → first ≢ third.refresh_token_hash
      → let (answer', r'') = rotate_refresh_token second.refresh_token_hash third then' r' in
        answer' ≡ ok true
        → next_fault r'' ≡ none
        → (resolve_refresh_token first later r'').0
          ≡ ok (if leb expires_at later then unknown else retired s.family_id s.user_id now)
unfolding left_behind
rotate-rotate-resolve first second third now then' later r s expires_at c m found full deadline e
      won m' n won' f =
    let r' : Lmdb = (rotate_refresh_token first second now r).1 in
    let r'' : Lmdb = (rotate_refresh_token second.refresh_token_hash third then' r').1 in
    let ef = won-Effect first second now r s c m found won in
    let ef' =
      won-Effect second.refresh_token_hash third then' r' second (Effect.consistent ef) m'
        (Effect.installed ef) won' in
    let (x, deadline', kept) = Effect.retired ef full in
    let same_deadline : x ≡ expires_at = cc (deadline, deadline') in
    ap (λ p. p.0) (resolve_refresh_token-classification first later r'' (Effect.consistent ef') e f)
    ∙ ap ok (
        classify_retired first later r''.dbs (left_behind first s second now x)
          (Effect.other_session ef' first m.different n ∙ Effect.gone ef)
          (Effect.other_record ef' first m.different ∙ kept) (Effect.gone ef')
        ∙ ap (λ y. if leb y later then unknown else retired s.family_id s.user_id now)
            same_deadline)
