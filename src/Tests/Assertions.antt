-- ===== src/Tests/Assertions.antt =====
-- The binding of an ID token over the LMDB store at a concrete assertion.
use oidc_exchange.Base.{
  ℕ, ◌≡◌, ◌≢◌, refl, false, none, [], ◌∷◌, codes, text_eq, get, is_empty, arith,
}
use oidc_exchange.Lmdb.{Lmdb, transaction}
use oidc_exchange.Lmdb.SingleUse.{put_in, put_single_use}
use oidc_exchange.Lmdb.Reach.{no_rows}
use oidc_exchange.Service.Lmdb.{lmdb_repository}
use oidc_exchange.Service.Assertion.{
  IdentityClaims, AssertionContext, Digests, Clocks, bound, string, after_epoch, str_claim,
  assertion_marker_key, used, claim_assertion_marker, nonce_gate, burn, controls, bind,
  check_lifetime, within_ceiling, exceeds, check_azp, check_at_hash,
}
use oidc_exchange.Service.Assertion.Once.{minting, apply_uses, bind-once}
use oidc_exchange.Tests.Rows.{with_rows}

abbrev digests : Digests
digests = record {
  sha256_hex = λ t. 35 ∷ t;
  half_256 = λ t. t;
  half_384 = λ t. t;
  half_512 = λ t. t;
}

abbrev claims : IdentityClaims
claims = record {
  signing_alg = codes "RS256";
  raw_claims = (codes "exp", after_epoch 100) ∷ (codes "jti", string (codes "j-1")) ∷ [];
}

abbrev ctx : AssertionContext
ctx = record {
  provider_id = codes "google";
  client_id = codes "client";
  access_token = none;
  compact_jwt = codes "a.b.c";
  require_nonce = false;
  max_assertion_secs = 60;
}

abbrev clocks_at : ℕ → Clocks
clocks_at now = record { at_bind = now; at_take = now; at_put = now }

abbrev empty_store : Lmdb
empty_store = with_rows no_rows

in_time : controls lmdb_repository digests claims ctx 50_000_000_000 ≡ bound 100_000_000_000
unfolding controls check_lifetime within_ceiling exceeds check_azp check_at_hash str_claim get
    text_eq
in_time = refl

accepted_first :
    (bind lmdb_repository digests claims ctx (clocks_at 50_000_000_000) empty_store).0 ≡ bound tt
unfolding bind burn controls check_lifetime within_ceiling exceeds check_azp check_at_hash str_claim
    get text_eq nonce_gate claim_assertion_marker put_single_use put_in transaction
    assertion_marker_key is_empty used
accepted_first = refl

bind-once_example :
    (bind lmdb_repository digests claims ctx (clocks_at 90_000_000_000) (
      apply_uses digests
        (minting 60 (codes "n") 60_000_000_000 60_000_000_000 ∷ [])
        (bind lmdb_repository digests claims ctx (clocks_at 50_000_000_000) empty_store).1)).0
    ≢ bound tt
bind-once_example =
    bind-once digests ctx claims 100_000_000_000 (clocks_at 50_000_000_000)
      (clocks_at 90_000_000_000) claims ctx empty_store
      (minting 60 (codes "n") 60_000_000_000 60_000_000_000 ∷ []) in_time accepted_first refl
      (omega arith, tt) (omega arith)
