-- ===== src/Tests/Revocations.antt =====
-- The revocation of tokens over the LMDB store at concrete requests.
use oidc_exchange.Base.{
  ◌≡◌, refl, true, Option, none, some, Text, codes, is_empty, text_eq, get, put,
}
use oidc_exchange.Domain.Audit
use oidc_exchange.Lmdb.{transaction, install_live_entry}
use oidc_exchange.Lmdb.Sessions.{get_session_by_refresh_token, revoke_session}
use oidc_exchange.Lmdb.Family.Revoke.{Revoked}
use oidc_exchange.Lmdb.Reach.{no_rows}
use oidc_exchange.Service.Lmdb.{lmdb_repository, revoke-access_Revoked}
use oidc_exchange.Service.Revoke.{RevokeRequest, names_access_token, revoke}
use oidc_exchange.Service.Revoke.Terminal.{Ended, revoke-Ended}
use oidc_exchange.Service.Revoke.Authority.{Authorised, revoke-Authorised}
use oidc_exchange.Service.Revoke.Hidden.{Presented, Known, revoke-hidden}
use oidc_exchange.Tests.Rows.{
  family, family_valid, session_of, with_rows, one_row, one_row-Consistent,
}
use oidc_exchange.Tests.Redemption.{digest, app, live_rows, before}
use oidc_exchange.Tests.Toy.{toy, toy_keys}
use oidc_exchange.Tests.Tokens.{token, token_config, minted, token_full, token_validates}

abbrev request : Text → Option Text → RevokeRequest
request token hint = record {
  token = token;
  token_type_hint = hint;
  client_addr = Audit.ClientAddr.unknown;
  user_agent = none;
  device_id = none;
}

abbrev access_request : RevokeRequest
access_request = request token (some (codes "access_token"))

abbrev refresh_request : RevokeRequest
refresh_request = request (codes "presented") none

revoke-Ended_example :
    let r =
      revoke lmdb_repository
        (app true)
        toy
        toy_keys
        token_config
        refresh_request
        (λ _. digest)
        1500
        (before live_rows) in
    Ended (app true) (before live_rows).events r.0 r.1.events
revoke-Ended_example =
    revoke-Ended lmdb_repository (app true) toy toy_keys token_config refresh_request (λ _. digest)
      1500 (before live_rows)

revoke-Authorised_example :
    Authorised lmdb_repository
      (app true)
      toy
      toy_keys
      token_config
      access_request
      (λ _. digest)
      1500
      (with_rows one_row)
      (revoke lmdb_repository
        (app true)
        toy
        toy_keys
        token_config
        access_request
        (λ _. digest)
        1500
        (before one_row)).1.store
revoke-Authorised_example =
    revoke-Authorised lmdb_repository (app true) toy toy_keys token_config access_request
      (λ _. digest) 1500 (before one_row)

revoke-access_Revoked_example :
    Revoked family one_row
      (revoke lmdb_repository
        (app true)
        toy
        toy_keys
        token_config
        access_request
        (λ _. digest)
        1500
        (before one_row)).1.store.dbs
unfolding names_access_token text_eq
revoke-access_Revoked_example =
    revoke-access_Revoked (app true) toy toy_keys token_config access_request (λ _. digest) 1500
      (before one_row) minted token_full refl token_validates family_valid one_row-Consistent refl

refresh_Presented :
    Presented lmdb_repository
      (app true)
      toy
      toy_keys
      token_config
      refresh_request
      (λ _. digest)
      1500
unfolding is_empty names_access_token
refresh_Presented = record { full = refl; refresh_hint = refl; digested = refl }

live_Known :
    Known lmdb_repository
      (app true)
      toy
      toy_keys
      token_config
      refresh_request
      (λ _. digest)
      1500
      (before live_rows)
unfolding is_empty text_eq get_session_by_refresh_token get install_live_entry put revoke_session
    transaction
live_Known = record {
  row = session_of digest;
  found = refl;
  owner = refl;
  own_row = refl;
  revoked = refl;
}

revoke-hidden_example :
    (revoke lmdb_repository
      (app true)
      toy
      toy_keys
      token_config
      refresh_request
      (λ _. digest)
      1500
      (before live_rows)).0
    ≡ (revoke lmdb_repository
        (app true)
        toy
        toy_keys
        token_config
        refresh_request
        (λ _. digest)
        1500
        (before no_rows)).0
unfolding get_session_by_refresh_token get transaction
revoke-hidden_example =
    revoke-hidden lmdb_repository (app true) toy toy_keys token_config refresh_request (λ _. digest)
      1500 (before live_rows) (before no_rows) refresh_Presented live_Known refl (λ e e'. refl)
