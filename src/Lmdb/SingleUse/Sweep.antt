-- ===== src/Lmdb/SingleUse/Sweep.antt =====
-- The sweep of expired single-use records, alone and against a concurrent claim.
use oidc_exchange.Base.{
  ℕ, refl, ◌∙◌, ◌≡◌, ◌≤◌, ◌<◌, true, false, Option, some, none, List, [], ◌∷◌, Text, leb, get, put,
  delete, get-delete, text_eq_iff, arith, if◌then◌else◌, Database, Distinct, member,
}
use oidc_exchange.Lmdb.{Dbs}
use oidc_exchange.Lmdb.SingleUse.{put_in, take_in}
use oidc_exchange.Lmdb.Cleanup.{expired_keys, delete_keys}

-- What is left of a record by a sweep at `now`.
abbrev pub swept : ℕ → Option ℕ → Option ℕ
swept now none = none
swept now (some expires_at) = if leb expires_at now then none else some expires_at

get-delete_keys :
    (k : Text) (keys : List Text) (m : Database ℕ)
    → get k (delete_keys keys m) ≡ (if member k keys then none else get k m)
unfolding delete_keys member
get-delete_keys k [] m = refl
get-delete_keys k (x ∷ keys) m =
    ground (arith, get-delete_keys k keys (delete x m), get-delete x k m)

absent-expired_keys :
    (now : ℕ) (k : Text) (m : Database ℕ) → get k m ≡ none → member k (expired_keys now m) ≡ false
unfolding expired_keys member get
absent-expired_keys now k [] g = refl
absent-expired_keys now k ((j, e) ∷ m) g =
    ground (arith, absent-expired_keys now k m, text_eq_iff k j)

member-expired_keys :
    (now : ℕ) (k : Text) (m : Database ℕ)
    → Distinct m
    → (if member k (expired_keys now m) then none else get k m) ≡ swept now (get k m)
unfolding expired_keys member get
member-expired_keys now k [] d = refl
member-expired_keys now k ((j, e) ∷ m) d =
    ground (arith, member-expired_keys now k m d.1, text_eq_iff k j, absent-expired_keys now k m)

-- With nothing between its two phases the sweep drops exactly the expired records.
pub get-sweep :
    (now : ℕ) (k : Text) (m : Database ℕ)
    → Distinct m
    → get k (delete_keys (expired_keys now m) m) ≡ swept now (get k m)
get-sweep now k m d = get-delete_keys k (expired_keys now m) m ∙ member-expired_keys now k m d

abbrev pub after_sweep : ℕ → Dbs → Dbs
after_sweep now d = record d {
  single_use = delete_keys (expired_keys now d.single_use) d.single_use;
}

-- No later claim or burn can tell whether the sweep ran, where the keys of the database are distinct
-- and the clock did not go back since the sweep's reading.
pub sweep-unseen :
    (now later e : ℕ) (k : Text) (d : Dbs)
    → Distinct d.single_use
    → now ≤ later
    → ((put_in k e later (after_sweep now d)).0 ≡ (put_in k e later d).0)
      × ((take_in k later (after_sweep now d)).0 ≡ (take_in k later d).0)
unfolding put_in take_in
sweep-unseen now later e k d u h = ground (arith, get-sweep now k d.single_use u)

-- The deletes of a sweep whose scan was made on `seen`.
abbrev pub finish_sweep : ℕ → Dbs → Dbs → Dbs
finish_sweep now seen d = record d {
  single_use = delete_keys (expired_keys now seen.single_use) d.single_use;
}

expired-member :
    (now : ℕ) (k : Text) (old : ℕ) (m : Database ℕ)
    → get k m ≡ some old
    → old ≤ now
    → member k (expired_keys now m) ≡ true
unfolding expired_keys member get
expired-member now k old [] g o = cc
expired-member now k old ((j, e) ∷ m) g o =
    ground (arith, expired-member now k old m, text_eq_iff k j)

-- A claim between the scan and the deletes of a sweep, on a key whose old record had expired, is
-- lost: the same key is then claimed a second time while the first claim should hold it.
pub sweep-loses_claim :
    (now e e' later : ℕ) (k : Text) (d : Dbs) (old : ℕ)
    → Distinct d.single_use
    → get k d.single_use ≡ some old
    → old ≤ now
    → now < e
    → later < e
    → ((put_in k e now d).0 ≡ true)
      × ((put_in k e' later (finish_sweep now d (put_in k e now d).1)).0 ≡ true)
unfolding put_in
sweep-loses_claim now e e' later k d old u g o p q = ground (
  arith,
  expired-member now k old d.single_use g o,
  get-delete_keys k (expired_keys now d.single_use) (put k e d.single_use),
)
