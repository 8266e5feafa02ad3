-- ===== src/Lmdb/Reach.antt =====
-- The states of the store that its calls reach from the empty environment, but for the two calls
-- over all rows, the revocation of a user and the cleanup.
use oidc_exchange.Base.{
  ℕ, ◌≡◌, refl, sym, ap, Bool, true, false, not, List, [], Text, get, if◌then◌else◌, ltb,
  Bool-cases, Option, Option-cases, inl, inr, subst, arith, Database, put, delete,
}
use oidc_exchange.Error.{Result, Result-cases, ok, panicked}
use oidc_exchange.Domain.Session.{Session, is_valid_family_id}
use oidc_exchange.Lmdb.{Dbs, HeedError, Lmdb, install_live_entry, transaction}
use oidc_exchange.Lmdb.Atomic.{transaction-ok, transaction-failed}
use oidc_exchange.Lmdb.Sessions.{
  store_refresh_token, rotate_in, rotate_refresh_token, revoke_session_in, revoke_session,
  revoke_family_wtxn, revoke_family,
}
use oidc_exchange.Lmdb.SingleUse.{put_in, put_single_use, take_in, take_single_use}
use oidc_exchange.Lmdb.Consistent.{Consistent}
use oidc_exchange.Lmdb.Consistent.Same.{SameRows-Consistent}
use oidc_exchange.Lmdb.Consistent.Install.{Installable, install_live_entry-Consistent}
use oidc_exchange.Lmdb.Consistent.Remove.{remove_live_entry-Consistent}
use oidc_exchange.Lmdb.Rotation.Effect.{Minted, Effect, rotate_in-Effect}
use oidc_exchange.Lmdb.Family.Revoke.{Revoked, revoke_family_wtxn-Revoked}

abbrev pub no_rows : Dbs
no_rows = record {
  sessions = [];
  user_sessions = [];
  retired_tokens = [];
  family_index = [];
  single_use = [];
}

pub no_rows-Consistent : Consistent no_rows
unfolding get
no_rows-Consistent = record {
  user_distinct = tt;
  index_distinct = tt;
  session_row = λ h s g. cc;
  retired_row = λ h r g. cc;
  successor = λ h r s g. cc;
  user_entry = λ k v g. cc;
  family_entry = λ k v g. cc;
  one_live = λ h j s t g. cc;
}

-- The environment that `new` opens on an empty directory, with the faults to come.
unfoldable pub new : ℕ → Text → List (Option HeedError) → Result Lmdb
new reuse_retention_secs join_error faults =
    if not (ltb 0 reuse_retention_secs)
    then panicked
    else ok (record {
      dbs = no_rows;
      faults = faults;
      join_error = join_error;
      reuse_retention_secs = reuse_retention_secs;
    })

-- What a transaction leaves has a property that its body keeps.
transaction-keeps :
    {A : Type 0} (P : Dbs → Type 0) (body : Dbs → Result (A × Dbs)) (r : Lmdb)
    → P r.dbs
    → ((a : A) (d : Dbs) → body r.dbs ≡ ok (a, d) → P d)
    → P (transaction body r).1.dbs
transaction-keeps P body r p k = elim (Result-cases (transaction body r).0) [
  | inl (a, h) ↦ k a (transaction body r).1.dbs (transaction-ok body r a h)
  | inr (inl (e, h)) ↦ subst P (sym (transaction-failed body r (λ a g. cc))) p
  | inr (inr h) ↦ subst P (sym (transaction-failed body r (λ a g. cc))) p
]

guarded-keeps :
    {A : Type 0} (P : Dbs → Type 0) (b : Bool) (body : Dbs → Result (A × Dbs)) (r : Lmdb)
    → P r.dbs
    → ((a : A) (d : Dbs) → body r.dbs ≡ ok (a, d) → P d)
    → P (if b then (panicked, r) else transaction body r).1.dbs
guarded-keeps P true body r p k = p
guarded-keeps P false body r p k = transaction-keeps P body r p k

-- A session that core stores is new in every respect.
pub store_refresh_token-Consistent :
    (session : Session) (r : Lmdb)
    → Consistent r.dbs
    → Installable r.dbs session
    → Consistent (store_refresh_token session r).1.dbs
unfolding store_refresh_token
store_refresh_token-Consistent session r c i =
    guarded-keeps Consistent _ (λ dbs. ok (tt, install_live_entry dbs session)) r c
      (λ a d h. subst Consistent (cc h) (install_live_entry-Consistent r.dbs c session i))

rotate_in-Consistent :
    (live_hash : Text) (replacement : Session) (secs now : ℕ) (d : Dbs)
    → Consistent d
    → Minted live_hash replacement d
    → (b : Bool) (d' : Dbs) → rotate_in live_hash replacement secs now d ≡ ok (b, d')
    → Consistent d'
unfolding rotate_in
rotate_in-Consistent live_hash replacement secs now d c m b d' h =
    elim (Option-cases (get live_hash d.sessions)) [
      | inl p ↦ subst Consistent (ground (arith, p, h)) c
      | inr p ↦
          Effect.consistent (rotate_in-Effect live_hash replacement secs now d c m p.0 b d' p.1 h).1
    ]

pub rotate_refresh_token-Consistent :
    (live_hash : Text) (replacement : Session) (now : ℕ) (r : Lmdb)
    → Consistent r.dbs
    → Minted live_hash replacement r.dbs
    → Consistent (rotate_refresh_token live_hash replacement now r).1.dbs
unfolding rotate_refresh_token
rotate_refresh_token-Consistent live_hash replacement now r c m =
    guarded-keeps Consistent _ (rotate_in live_hash replacement r.reuse_retention_secs now) r c
      (rotate_in-Consistent live_hash replacement r.reuse_retention_secs now r.dbs c m)

revoke_session_in-Consistent :
    (h : Text) (d : Dbs) → Consistent d → Consistent (revoke_session_in h d)
unfolding revoke_session_in
revoke_session_in-Consistent h d c = elim (Option-cases (get h d.sessions)) [
  | inl p ↦ rw p c
  | inr p ↦ rw p.1 (remove_live_entry-Consistent d c h p.0 p.1)
]

pub revoke_session-Consistent :
    (h : Text) (r : Lmdb) → Consistent r.dbs → Consistent (revoke_session h r).1.dbs
unfolding revoke_session
revoke_session-Consistent h r c =
    guarded-keeps Consistent _ (λ dbs. ok (tt, revoke_session_in h dbs)) r c
      (λ a d p. subst Consistent (cc p) (revoke_session_in-Consistent h r.dbs c))

pub revoke_family-Consistent :
    (family_id : Text) (r : Lmdb) → Consistent r.dbs → Consistent (revoke_family family_id r).1.dbs
unfolding revoke_family
revoke_family-Consistent family_id r c = elim (Bool-cases (is_valid_family_id family_id)) [
  | inl v ↦ rw v (
      transaction-keeps Consistent (revoke_family_wtxn family_id) r c (λ n d h.
        let (d', p, w) = revoke_family_wtxn-Revoked family_id v r.dbs c in
        subst Consistent (cc (p, h)) (Revoked.consistent w)))
  | inr v ↦ rw v c
]

single_use-Consistent :
    (d : Dbs) (m : Database ℕ) → Consistent d → Consistent (record d { single_use = m })
single_use-Consistent d m c =
    SameRows-Consistent d (record d { single_use = m })
      (record {
        sessions = λ k. refl;
        users = λ k. refl;
        records = λ k. refl;
        index = λ k. refl;
        user_distinct = c.user_distinct;
        index_distinct = c.index_distinct;
      })
      c

put_in-Consistent :
    (key : Text) (e now : ℕ) (d : Dbs) → Consistent d → Consistent (put_in key e now d).1
unfolding put_in
put_in-Consistent key e now d c = elim (Bool-cases (put_in key e now d).0) [
  | inl y ↦ subst Consistent (ground arith) (single_use-Consistent d (put key e d.single_use) c)
  | inr n ↦ subst Consistent (ground arith) c
]

take_in-Consistent :
    (key : Text) (now : ℕ) (d : Dbs) → Consistent d → Consistent (take_in key now d).1
unfolding take_in
take_in-Consistent key now d c = single_use-Consistent d (delete key d.single_use) c

ok-injective : {A : Type 0} {a b : A} → ok a ≡ ok b → a ≡ b
ok-injective h = cc

put_single_use-Consistent :
    (key : Text) (e now : ℕ) (r : Lmdb)
    → Consistent r.dbs
    → Consistent (put_single_use key e now r).1.dbs
unfolding put_single_use
put_single_use-Consistent key e now r c =
    guarded-keeps Consistent _ (λ dbs. ok (put_in key e now dbs)) r c
      (λ a d p.
        subst Consistent (ap (λ x. x.1) (ok-injective p)) (put_in-Consistent key e now r.dbs c))

take_single_use-Consistent :
    (key : Text) (now : ℕ) (r : Lmdb)
    → Consistent r.dbs
    → Consistent (take_single_use key now r).1.dbs
unfolding take_single_use
take_single_use-Consistent key now r c =
    guarded-keeps Consistent _ (λ dbs. ok (take_in key now dbs)) r c
      (λ a d p.
        subst Consistent (ap (λ x. x.1) (ok-injective p)) (take_in-Consistent key now r.dbs c))

-- One call after another: what core guarantees of a session that it stores or swaps in is asked of
-- it at the state of the call; a revocation or a claim may have any argument.
pub data Reached : Lmdb → Type 0 where
  opened :
      (secs : ℕ) (join_error : Text) (faults : List (Option HeedError)) (r : Lmdb)
      → new secs join_error faults ≡ ok r
      → Reached r
  stored :
      (r : Lmdb) (session : Session)
      → Reached r
      → Installable r.dbs session
      → Reached (store_refresh_token session r).1
  rotated :
      (r : Lmdb) (live_hash : Text) (replacement : Session) (now : ℕ)
      → Reached r
      → Minted live_hash replacement r.dbs
      → Reached (rotate_refresh_token live_hash replacement now r).1
  session_revoked : (r : Lmdb) (h : Text) → Reached r → Reached (revoke_session h r).1
  family_revoked : (r : Lmdb) (family_id : Text) → Reached r → Reached (revoke_family family_id r).1
  claimed : (r : Lmdb) (key : Text) (e now : ℕ) → Reached r → Reached (put_single_use key e now r).1
  burned : (r : Lmdb) (key : Text) (now : ℕ) → Reached r → Reached (take_single_use key now r).1

new-Consistent :
    (secs : ℕ) (join_error : Text) (faults : List (Option HeedError)) (r : Lmdb)
    → new secs join_error faults ≡ ok r
    → Consistent r.dbs
unfolding new
new-Consistent secs join_error faults r h = subst Consistent (ground (arith, h)) no_rows-Consistent

-- In every state that such calls reach, whatever transactions LMDB fails and whatever calls panic,
-- the databases are consistent: both indexes name exactly the stored rows, no hash is live and
-- retired at once, and a family has one live generation at most.
pub Reached-Consistent : (r : Lmdb) → Reached r → Consistent r.dbs
Reached-Consistent _ (opened secs join_error faults r h) = new-Consistent secs join_error faults r h
Reached-Consistent _ (stored r session p i) =
    store_refresh_token-Consistent session r (Reached-Consistent r p) i
Reached-Consistent _ (rotated r live_hash replacement now p m) =
    rotate_refresh_token-Consistent live_hash replacement now r (Reached-Consistent r p) m
Reached-Consistent _ (session_revoked r h p) =
    revoke_session-Consistent h r (Reached-Consistent r p)
Reached-Consistent _ (family_revoked r family_id p) =
    revoke_family-Consistent family_id r (Reached-Consistent r p)
Reached-Consistent _ (claimed r key e now p) =
    put_single_use-Consistent key e now r (Reached-Consistent r p)
Reached-Consistent _ (burned r key now p) =
    take_single_use-Consistent key now r (Reached-Consistent r p)
