-- ===== src/Lmdb/Calls/Unchanged.antt =====
-- A call of the store that does not return a value has written nothing.
use oidc_exchange.Base.{ℕ, ◌≡◌, ◌≢◌, refl, Bool, true, false, Text, if◌then◌else◌}
use oidc_exchange.Error.{Result, ok, panicked}
use oidc_exchange.Domain.Session.{Session}
use oidc_exchange.Lmdb.{Dbs, Lmdb, install_live_entry, transaction}
use oidc_exchange.Lmdb.Atomic.{transaction-failed}
use oidc_exchange.Lmdb.Sessions.{
  store_refresh_token, rotate_in, rotate_refresh_token, revoke_session_in, revoke_session,
  revoke_family_wtxn, revoke_family,
}
use oidc_exchange.Lmdb.Listing.{revoke_all_in, revoke_all_user_sessions}
use oidc_exchange.Lmdb.SingleUse.{put_in, put_single_use, take_in, take_single_use}

-- The writes of the port, with their arguments.
pub data Write : Type 0 → Type 1 where
  store : Session → Write (Unit {0})
  rotate : Text → Session → ℕ → Write Bool
  revoke_one : Text → Write (Unit {0})
  revoke_of_family : Text → Write ℕ
  revoke_of_user : Text → Write ℕ
  put_once : Text → ℕ → ℕ → Write Bool
  take_once : Text → ℕ → Write Bool

unfoldable pub write_call : {A : Type 0} → Write A → Lmdb → Result A × Lmdb
write_call (store session) r = store_refresh_token session r
write_call (rotate live_hash replacement now) r = rotate_refresh_token live_hash replacement now r
write_call (revoke_one token_hash) r = revoke_session token_hash r
write_call (revoke_of_family family_id) r = revoke_family family_id r
write_call (revoke_of_user user_id) r = revoke_all_user_sessions user_id r
write_call (put_once key expires_at now) r = put_single_use key expires_at now r
write_call (take_once key now) r = take_single_use key now r

-- The shape of each method: assertions, then one transaction.
guarded :
    {A : Type 0} (b : Bool) (body : Dbs → Result (A × Dbs)) (r : Lmdb)
    → let (answer, r') = (if b then (panicked, r) else transaction body r) in
      ((a : A) → answer ≢ ok a) → r'.dbs ≡ r.dbs
guarded true body r n = refl
guarded false body r n = transaction-failed body r n

-- All or nothing: a write of the port, but for the cleanup, that panics or returns an error, by LMDB's fault or by a
-- failed assertion in the middle of it, leaves every database as it was.
pub write_call-failed :
    {A : Type 0} (w : Write A) (r : Lmdb)
    → let (answer, r') = write_call w r in ((a : A) → answer ≢ ok a) → r'.dbs ≡ r.dbs
unfolding write_call store_refresh_token rotate_refresh_token revoke_session revoke_family
    revoke_all_user_sessions put_single_use take_single_use
write_call-failed (store session) r n =
    guarded _ (λ dbs. ok (tt, install_live_entry dbs session)) r n
write_call-failed (rotate live_hash replacement now) r n =
    guarded _ (rotate_in live_hash replacement r.reuse_retention_secs now) r n
write_call-failed (revoke_one token_hash) r n =
    guarded _ (λ dbs. ok (tt, revoke_session_in token_hash dbs)) r n
write_call-failed (revoke_of_family family_id) r n = guarded _ (revoke_family_wtxn family_id) r n
write_call-failed (revoke_of_user user_id) r n = guarded _ (revoke_all_in user_id) r n
write_call-failed (put_once key expires_at now) r n =
    guarded _ (λ dbs. ok (put_in key expires_at now dbs)) r n
write_call-failed (take_once key now) r n = guarded _ (λ dbs. ok (take_in key now dbs)) r n
