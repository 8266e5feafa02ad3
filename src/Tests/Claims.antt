-- ===== src/Tests/Claims.antt =====
-- Single-use claims at concrete keys and instants.
use oidc_exchange.Base.{◌≡◌, refl, true, false, [], ◌∷◌, Text, codes, get, text_eq, arith}
use oidc_exchange.Lmdb.{Dbs}
use oidc_exchange.Lmdb.SingleUse.{put_in, take_in}
use oidc_exchange.Lmdb.SingleUse.Claims.{put_in-put_in}
use oidc_exchange.Lmdb.SingleUse.Sweep.{after_sweep, finish_sweep, sweep-unseen, sweep-loses_claim}
use oidc_exchange.Lmdb.Reach.{no_rows}

abbrev jti : Text
jti = codes "jti"

abbrev stale : Dbs
stale = record no_rows { single_use = (jti, 10) ∷ [] }

put_in-put_in_example :
    put_in jti 90 30 (put_in jti 50 20 no_rows).1 ≡ (false, (put_in jti 50 20 no_rows).1)
unfolding put_in get
put_in-put_in_example = put_in-put_in jti 50 90 20 30 no_rows refl (omega arith)

sweep-unseen_example :
    ((put_in jti 50 20 (after_sweep 15 stale)).0 ≡ (put_in jti 50 20 stale).0)
    × ((take_in jti 20 (after_sweep 15 stale)).0 ≡ (take_in jti 20 stale).0)
unfolding get
sweep-unseen_example = sweep-unseen 15 20 50 jti stale (refl, tt) (omega arith)

sweep-loses_claim_example :
    ((put_in jti 50 15 stale).0 ≡ true)
    × ((put_in jti 90 20 (finish_sweep 15 stale (put_in jti 50 15 stale).1)).0 ≡ true)
unfolding get text_eq
sweep-loses_claim_example =
    sweep-loses_claim 15 50 90 20 jti stale 10 (refl, tt) refl (omega arith) (omega arith)
      (omega arith)
