-- ===== src/Lmdb/Cleanup.antt =====
-- crates/adapters/src/lmdb/mod.rs: the batched sweep of expired rows.
pub mod Returns
use oidc_exchange.Base.{
  ℕ, zero, suc, ◌+◌, ◌/◌, Bool, Option, none, some, List, [], ◌∷◌, ◌++◌, ◌&&◌, leb, ltb, min, max,
  if◌then◌else◌, Text, Database, delete, length, take, drop,
}
use mathlib.Core.Option
use oidc_exchange.Error.{◌>>=◌, Result, ok, err, panicked, store_error}
use oidc_exchange.Domain.Session.{Session, RetiredRefreshToken}
use oidc_exchange.Lmdb.{Dbs, Lmdb, HeedError, remove_live_entry, remove_retired_entry, transaction}

abbrev pub lmdb_cleanup_batch_size : ℕ
lmdb_cleanup_batch_size = 256

abbrev pub cleanup_max_batch_halvings : ℕ
cleanup_max_batch_halvings = 8

pub data Expired : Type 0 where
  live : Session → Expired
  retired : RetiredRefreshToken → Expired

-- The read phase.
unfoldable pub expired_sessions : ℕ → Database Session → List Expired
expired_sessions now [] = []
expired_sessions now ((_, session) ∷ rest) =
    let others = expired_sessions now rest in
    if leb session.expires_at now then live session ∷ others else others

unfoldable pub expired_records : ℕ → Database RetiredRefreshToken → List Expired
expired_records now [] = []
expired_records now ((_, record') ∷ rest) =
    let others = expired_records now rest in
    if leb record'.expires_at now then retired record' ∷ others else others

unfoldable pub expired_rows : ℕ → Dbs → List Expired
expired_rows now dbs = expired_sessions now dbs.sessions ++ expired_records now dbs.retired_tokens

unfoldable pub remove_expired : Expired → Dbs → Bool × Dbs
remove_expired (live session) dbs = remove_live_entry dbs session.refresh_token_hash session
remove_expired (retired record') dbs = remove_retired_entry dbs record'

-- The loop of `commit_deletion_batch`, with the number removed.
unfoldable pub remove_batch : List Expired → ℕ → Dbs → ℕ × Dbs
unfolding remove_expired
remove_batch [] removed dbs = (removed, dbs)
remove_batch (entry ∷ rest) removed dbs =
    let (existed, dbs') = remove_expired entry dbs in
    remove_batch rest (if existed then removed + 1 else removed) dbs'

-- A batch that LMDB commits, or the error it fails with.
pub data Batch : Type 0 where
  committed : ℕ → Batch
  failed : HeedError → Batch

begin_batch : List Expired → List (Option HeedError) → Lmdb → Batch × Lmdb
begin_batch batch [] r =
    let (removed, dbs) = remove_batch batch 0 r.dbs in (committed removed, record r { dbs = dbs })
begin_batch batch (none ∷ rest) r =
    let (removed, dbs) = remove_batch batch 0 r.dbs in
    (committed removed, record r { dbs = dbs; faults = rest })
begin_batch batch (some e ∷ rest) r = (failed e, record r { faults = rest })

unfoldable pub commit_deletion_batch : List Expired → Lmdb → Batch × Lmdb
unfolding begin_batch
commit_deletion_batch batch r = begin_batch batch r.faults r

-- The inner loop: a batch that meets `MDB_MAP_FULL` is tried at half its width, while it is wider
-- than one entry and halvings are left. The result is what was removed, and the width that was
-- committed.
unfoldable pub attempt : ℕ → ℕ → List Expired → Lmdb → Result (ℕ × ℕ) × Lmdb
attempt zero width rest r =
    let (outcome, r') = commit_deletion_batch (take width rest) r in
    elim outcome [
      | committed removed ↦ (ok (removed, width), r')
      | failed e ↦ (err (store_error e.detail), r')
    ]
attempt (suc halvings_left) width rest r =
    let (outcome, r') = commit_deletion_batch (take width rest) r in
    let narrower = attempt halvings_left (max (width / 2) 1) rest r' in
    elim outcome [
      | committed removed ↦ (ok (removed, width), r')
      | failed e ↦
          if e.is_map_full && ltb 1 width then narrower else (err (store_error e.detail), r')
    ]

-- The outer loop over what is left of the queue, on fuel; `none` is a lack of fuel.
unfoldable pub sweep : ℕ → List Expired → ℕ → Lmdb → Option (Result ℕ × Lmdb)
sweep fuel [] deleted r = some (ok deleted, r)
sweep zero (entry ∷ rest) deleted r = none
sweep (suc fuel) (entry ∷ rest) deleted r =
    let queue = entry ∷ rest in
    let (outcome, r') =
      attempt cleanup_max_batch_halvings (min lmdb_cleanup_batch_size (length queue)) queue r in
    elim outcome [
      | ok progress ↦ sweep fuel (drop progress.1 queue) (deleted + progress.0) r'
      | err e ↦ some (err e, r')
      | panicked ↦ some (panicked, r')
    ]

-- The read phase of the single-use sweep.
unfoldable pub expired_keys : ℕ → Database ℕ → List Text
expired_keys now [] = []
expired_keys now ((key, expires_at) ∷ rest) =
    let others = expired_keys now rest in if leb expires_at now then key ∷ others else others

-- Its delete phase, in a transaction of its own.
unfoldable pub delete_keys : List Text → Database ℕ → Database ℕ
delete_keys [] m = m
delete_keys (key ∷ rest) m = delete_keys rest (delete key m)

unfoldable pub scan_single_use : ℕ → Lmdb → Result (List Text) × Lmdb
scan_single_use now r = transaction (λ dbs. ok (expired_keys now dbs.single_use, dbs)) r

unfoldable pub delete_single_use : List Text → Lmdb → Result ℕ × Lmdb
delete_single_use [] r = (ok 0, r)
delete_single_use (key ∷ rest) r =
    transaction
      (λ dbs.
        ok (
          length (key ∷ rest),
          record dbs { single_use = delete_keys (key ∷ rest) dbs.single_use },
        ))
      r

sweep_single_use : ℕ → ℕ → Lmdb → Result ℕ × Lmdb
sweep_single_use now deleted r =
    let (keys, r') = scan_single_use now r in
    elim keys [
      | ok dead ↦
          let (count, r'') = delete_single_use dead r' in (count >>= λ n. ok (deleted + n), r'')
      | err e ↦ (err e, r')
      | panicked ↦ (panicked, r')
    ]

unfoldable pub after_sweep : ℕ → Result ℕ × Lmdb → Result ℕ × Lmdb
unfolding sweep_single_use
after_sweep now (ok deleted, r) = sweep_single_use now deleted r
after_sweep now (err e, r) = (err e, r)
after_sweep now (panicked, r) = (panicked, r)

-- `cleanup_expired_sessions`; `now` is the one clock reading that it makes.
unfoldable pub cleanup_expired_sessions : ℕ → Lmdb → Option (Result ℕ × Lmdb)
unfolding after_sweep
cleanup_expired_sessions now r =
    let (found, r') = transaction (λ dbs. ok (expired_rows now dbs, dbs)) r in
    elim found [
      | ok rows ↦ Option.map (after_sweep now) (sweep (length rows) rows 0 r')
      | err e ↦ some (err e, r')
      | panicked ↦ some (panicked, r')
    ]
