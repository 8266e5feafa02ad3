-- ===== src/Tests/Redemption.antt =====
-- The redemption of a refresh token over the LMDB store at concrete requests.
use oidc_exchange.Base.{
  ℕ, ◌≡◌, ◌≢◌, refl, Bool, true, false, some, none, [], ◌++◌, Text, codes, get, put, is_empty,
  text_eq, strip_prefix, has_char, prefix_iter,
}
use oidc_exchange.Error.{Result, ok}
use oidc_exchange.Domain.Session.{RetiredRefreshToken, live, retired, unknown, is_valid_family_id}
use oidc_exchange.Domain.Audit.{debug, error, AuditEvent}
use oidc_exchange.Domain.Audit
use oidc_exchange.Lmdb.{Dbs, Lmdb, put_retired, install_live_entry, transaction, family_index_key}
use oidc_exchange.Lmdb.Sessions.{
  resolve_refresh_token, resolve_in, revoke_family, revoke_family_wtxn, kinds_known, family_entries,
  remove_family_sessions, of_kind, remove_family_records,
}
use oidc_exchange.Lmdb.Consistent.{Consistent}
use oidc_exchange.Lmdb.Consistent.Retire.{put_retired-Consistent}
use oidc_exchange.Lmdb.Family.Revoke.{Revoked}
use oidc_exchange.Lmdb.Cleanup.{cleanup_expired_sessions}
use oidc_exchange.Lmdb.Cleanup.Returns.{cleanup_expired_sessions-returns}
use oidc_exchange.Lmdb.Reach.{no_rows, no_rows-Consistent}
use oidc_exchange.Service.{AppService, World}
use oidc_exchange.Service.Lmdb.{lmdb_repository, refresh-reuse_Revoked}
use oidc_exchange.Service.Refresh.{RefreshRequest, TokenResponse, Draws, refresh}
use oidc_exchange.Service.Refresh.Outcomes.{Resolved, refresh-without_rotation}
use oidc_exchange.Service.Refresh.Reuse.{Reused, retirement, refresh-reuse_hidden}
use oidc_exchange.Service.Refresh.Barred.{missing, refresh-Barred}
use oidc_exchange.Tests.Rows.{family, family_valid, session_of, hash_a, with_rows}

abbrev eight : Text
eight = codes "01234567"

-- A digest of 64 characters.
abbrev pub digest : Text
digest = eight ++ eight ++ eight ++ eight ++ eight ++ eight ++ eight ++ eight

abbrev draws : Draws
draws = record {
  at_resolve = 7;
  at_grace = 7;
  at_expiry = 8;
  at_mint = 9;
  at_swap = 10;
  raw_token = codes "fresh";
  new_family_id = family;
  digest = λ _. digest;
}

abbrev pub app : Bool → AppService
app rotation = record {
  refresh_rotation = rotation;
  refresh_rotation_grace = 10;
  emit_threshold = Audit.debug;
  blocking_threshold = Audit.error;
  is_enforce = true;
  get_user_by_id = λ _. ok none;
  build_access_token = λ _ _. ok (codes "jwt", 900);
  emit = λ _. none;
  to_string = λ _. codes "sink down";
}

abbrev request : RefreshRequest
request = record {
  refresh_token = codes "presented";
  client_addr = Audit.ClientAddr.unknown;
  user_agent = none;
  device_id = none;
}

abbrev spent : RetiredRefreshToken
spent = record {
  refresh_token_hash = digest;
  family_id = family;
  user_id = codes "usr_1";
  successor_hash = hash_a;
  retired_at = 5;
  expires_at = 60_000_000_005;
}

abbrev spent_rows : Dbs
spent_rows = put_retired no_rows spent

spent_rows-Consistent : Consistent spent_rows
unfolding get
spent_rows-Consistent =
    put_retired-Consistent no_rows no_rows-Consistent spent
      (record { family = family_valid; not_live = refl; not_retired = refl; heir = λ t g. cc })

abbrev pub live_rows : Dbs
live_rows = install_live_entry no_rows (session_of digest)

abbrev pub before : Dbs → World Lmdb
before d = record { store = with_rows d; events = [] }

spent_Resolved :
    Resolved lmdb_repository
      (app true)
      draws
      request
      (before spent_rows)
      (retired family (codes "usr_1") 5)
      (with_rows spent_rows)
unfolding is_empty resolve_refresh_token transaction resolve_in get put_retired put text_eq
spent_Resolved = record { full = refl; digested = refl; answer = refl }

unknown_Resolved :
    Resolved lmdb_repository (app true) draws request (before no_rows) unknown (with_rows no_rows)
unfolding is_empty resolve_refresh_token transaction resolve_in get
unknown_Resolved = record { full = refl; digested = refl; answer = refl }

live_Resolved :
    (b : Bool)
    → Resolved lmdb_repository
        (app b)
        draws
        request
        (before live_rows)
        (live (session_of digest))
        (with_rows live_rows)
unfolding is_empty resolve_refresh_token transaction resolve_in get install_live_entry put text_eq
live_Resolved b = record { full = refl; digested = refl; answer = refl }

spent_Reused :
    Reused lmdb_repository
      (app true)
      draws
      request
      (retired family (codes "usr_1") 5)
      family
      (codes "usr_1")
spent_Reused = retirement family (codes "usr_1") 5

refresh-without_rotation_example :
    (refresh lmdb_repository (app false) draws request (before live_rows)).1.store
    ≡ with_rows live_rows
refresh-without_rotation_example =
    refresh-without_rotation lmdb_repository (app false) draws request (before live_rows)
      (live (session_of digest)) (with_rows live_rows) refl (live_Resolved false)

refresh-Barred_example :
    ((refresh lmdb_repository (app true) draws request (before live_rows)).1.store
      ≡ with_rows live_rows)
    × ((t : TokenResponse)
        → (refresh lmdb_repository (app true) draws request (before live_rows)).0 ≢ ok t)
refresh-Barred_example =
    refresh-Barred lmdb_repository (app true) draws request (before live_rows) (session_of digest)
      (with_rows live_rows) (live_Resolved true) (missing refl)

refresh-reuse_Revoked_example :
    Revoked family spent_rows
      (refresh lmdb_repository (app true) draws request (before spent_rows)).1.store.dbs
unfolding is_empty
refresh-reuse_Revoked_example =
    refresh-reuse_Revoked (app true) draws request (before spent_rows)
      (retired family (codes "usr_1") 5) (with_rows spent_rows) family (codes "usr_1") refl
      spent_Resolved spent_Reused family_valid refl spent_rows-Consistent refl

revoked_count : (revoke_family family (with_rows spent_rows)).0 ≡ ok 1
unfolding revoke_family is_valid_family_id strip_prefix has_char transaction revoke_family_wtxn
    kinds_known family_entries prefix_iter put_retired put family_index_key text_eq
    remove_family_sessions of_kind remove_family_records get
revoked_count = refl

refresh-reuse_hidden_example :
    (refresh lmdb_repository (app true) draws request (before spent_rows)).0
    ≡ (refresh lmdb_repository (app true) draws request (before no_rows)).0
unfolding is_empty
refresh-reuse_hidden_example =
    refresh-reuse_hidden lmdb_repository (app true) draws request (before spent_rows)
      (before no_rows) (retired family (codes "usr_1") 5) (with_rows spent_rows) (with_rows no_rows)
      family (codes "usr_1") 1 refl spent_Resolved spent_Reused family_valid refl revoked_count
      (λ e. refl) unknown_Resolved

cleanup_expired_sessions-returns_example :
    (x : Result ℕ × Lmdb) × (cleanup_expired_sessions 100_000_000_000 (with_rows live_rows)
      ≡ some x)
cleanup_expired_sessions-returns_example =
    cleanup_expired_sessions-returns 100_000_000_000 (with_rows live_rows)
