-- ===== src/Service/Lmdb.antt =====
-- The session repository of crates/adapters/src/lmdb/mod.rs as the services see it, a detected reuse
-- and a revoked access token from the request down to the databases.
use oidc_exchange.Base.{ℕ, ◌≡◌, sym, subst, true, false, none, Text, is_empty}
use oidc_exchange.Domain.Session.{RefreshResolution, is_valid_family_id}
use oidc_exchange.Lmdb.{Lmdb}
use oidc_exchange.Lmdb.Listing.{list_live_sessions, count_active_sessions, revoke_all_user_sessions}
use oidc_exchange.Lmdb.SingleUse.{put_single_use, take_single_use}
use oidc_exchange.Lmdb.Sessions.{
  store_refresh_token, get_session_by_refresh_token, resolve_refresh_token, rotate_refresh_token,
  revoke_session, revoke_family,
}
use oidc_exchange.Lmdb.Atomic.{next_fault}
use oidc_exchange.Lmdb.Consistent.{Consistent}
use oidc_exchange.Lmdb.Family.Revoke.{Revoked}
use oidc_exchange.Lmdb.Calls.Revocation.{revoke_family-Revoked}
use oidc_exchange.Service.{SessionRepository, AppService, World}
use oidc_exchange.Service.Refresh.{RefreshRequest, Draws, refresh}
use oidc_exchange.Service.Refresh.Outcomes.{Resolved}
use oidc_exchange.Service.Refresh.Reuse.{Reused, refresh-reuse_revokes}
use oidc_exchange.Token.{
  AccessTokenClaims, Codec, KeyManager, TokenConfig, accepted, validate_access_token,
}
use oidc_exchange.Service.Revoke.{RevokeRequest, names_access_token, revoke}
use oidc_exchange.Service.Revoke.Authority.{revoke-access}

abbrev pub lmdb_repository : SessionRepository Lmdb
lmdb_repository = record {
  get_session_by_refresh_token = get_session_by_refresh_token;
  resolve_refresh_token = resolve_refresh_token;
  rotate_refresh_token = rotate_refresh_token;
  revoke_session = revoke_session;
  revoke_family = revoke_family;
  store_refresh_token = store_refresh_token;
  revoke_all_user_sessions = revoke_all_user_sessions;
  list_live_sessions = list_live_sessions;
  count_active_sessions = count_active_sessions;
  put_single_use = put_single_use;
  take_single_use = take_single_use;
}

-- With rotation on and the LMDB store, a request whose token the lookup classifies as reused leaves
-- no session and no record of the token's family, and every other row as it was, whatever the audit
-- sink answers. The family id is well formed and the user id not empty, the lookup left consistent
-- databases, and LMDB does not fail the revocation.
pub refresh-reuse_Revoked :
    (app : AppService) (draws : Draws) (request : RefreshRequest) (w : World Lmdb)
    (res : RefreshResolution) (s' : Lmdb) (f u : Text)
    → app.refresh_rotation ≡ true
    → Resolved lmdb_repository app draws request w res s'
    → Reused lmdb_repository app draws request res f u
    → is_valid_family_id f ≡ true
    → is_empty u ≡ false
    → Consistent s'.dbs
    → next_fault s' ≡ none
    → Revoked f s'.dbs (refresh lmdb_repository app draws request w).1.store.dbs
refresh-reuse_Revoked app draws request w res s' f u on r p v full c fault =
    subst (λ (x : Lmdb). Revoked f s'.dbs x.dbs)
      (sym (refresh-reuse_revokes lmdb_repository app draws request w res s' f u on r p v full))
      (revoke_family-Revoked f s' v c fault).1

-- With the LMDB store, a request with the hint `access_token`, whose token is not empty, validates and
-- names a well-formed family, leaves no session and no record of that family, and every other row as
-- it was, whatever the audit sink answers. The databases are consistent, and LMDB does not fail the
-- revocation.
pub revoke-access_Revoked :
    (app : AppService) (codec : Codec) (keys : KeyManager) (config : TokenConfig)
    (request : RevokeRequest) (digest : Text → Text) (now_secs : ℕ) (w : World Lmdb)
    (claims : AccessTokenClaims)
    → is_empty request.token ≡ false
    → names_access_token request.token_type_hint ≡ true
    → validate_access_token codec keys config request.token now_secs ≡ accepted claims
    → is_valid_family_id claims.sid ≡ true
    → Consistent w.store.dbs
    → next_fault w.store ≡ none
    → Revoked claims.sid w.store.dbs
        (revoke lmdb_repository app codec keys config request digest now_secs w).1.store.dbs
revoke-access_Revoked app codec keys config request digest now_secs w claims full hint e v c fault =
    subst (λ (x : Lmdb). Revoked claims.sid w.store.dbs x.dbs)
      (sym (
        revoke-access lmdb_repository app codec keys config request digest now_secs w claims full
          hint e v))
      (revoke_family-Revoked claims.sid w.store v c fault).1
