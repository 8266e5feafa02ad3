-- ===== src/Lmdb/SingleUse/Claims.antt =====
-- Claims and burns of one key, one after the other.
use oidc_exchange.Base.{
  ℕ, ◌≡◌, ◌≢◌, ◌<◌, true, false, some, Text, get, get-put, get-delete, text_eq_refl, text_eq_iff,
  arith,
}
use oidc_exchange.Lmdb.{Dbs}
use oidc_exchange.Lmdb.SingleUse.{put_in, take_in}

-- Whether a record holds the key at an instant.
abbrev pub IsHeld : Text → ℕ → Dbs → Type 0
IsHeld key now d = (expires_at : ℕ) × (get key d.single_use ≡ some expires_at) × (now < expires_at)

-- A claim that wins holds its key against every claim, by whoever and for whatever expiry, until
-- its own expiry, and a claim that loses writes nothing.
pub put_in-put_in :
    (key : Text) (e e' now later : ℕ) (d : Dbs)
    → (put_in key e now d).0 ≡ true
    → later < e
    → put_in key e' later (put_in key e now d).1 ≡ (false, (put_in key e now d).1)
unfolding put_in
put_in-put_in key e e' now later d w h =
    ground (arith, get-put key key e d.single_use, text_eq_refl key)

-- Claims and burns of one key do not touch another.
pub put_in-other :
    (key other : Text) (e now : ℕ) (d : Dbs)
    → other ≢ key
    → (get other (put_in key e now d).1.single_use ≡ get other d.single_use)
      × (get other (take_in key now d).1.single_use ≡ get other d.single_use)
unfolding put_in take_in
put_in-other key other e now d n = ground (
  arith,
  get-put key other e d.single_use,
  get-delete key other d.single_use,
  text_eq_iff other key,
)
