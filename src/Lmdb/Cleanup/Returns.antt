-- ===== src/Lmdb/Cleanup/Returns.antt =====
-- crates/adapters/src/lmdb/mod.rs: the batched cleanup comes to an end.
use oidc_exchange.Base.{
  ℕ, zero, suc, ◌+◌, ◌/◌, ◌≡◌, ◌≤◌, refl, ap, ◌∙◌, ◌&&◌, some, List, [], ◌∷◌, length, ◌-◌, drop,
  take, min, max, ltb, arith, inl, inr, ◌⊎◌, Bool-cases,
}
use mathlib.Core.Option
use oidc_exchange.Error.{Result, Result-cases, ok, err, panicked}
use oidc_exchange.Lmdb.{HeedError, Lmdb, transaction}
use oidc_exchange.Lmdb.Cleanup.{
  Expired, Batch, committed, failed, commit_deletion_batch, attempt, sweep,
  cleanup_max_batch_halvings, lmdb_cleanup_batch_size, cleanup_expired_sessions, expired_rows,
  after_sweep,
}

Batch-cases : (b : Batch) → ((n : ℕ) × (b ≡ committed n)) ⊎ ((e : HeedError) × (b ≡ failed e))
Batch-cases (committed n) = inl (n, refl)
Batch-cases (failed e) = inr (e, refl)

-- A batch that was committed is never empty.
attempt-width :
    (halvings width : ℕ) (rest : List Expired) (r : Lmdb) (progress : ℕ × ℕ)
    → 1 ≤ width
    → (attempt halvings width rest r).0 ≡ ok progress
    → 1 ≤ progress.1
unfolding attempt
attempt-width zero width rest r progress w h =
    elim (Batch-cases (commit_deletion_batch (take width rest) r).0) [
      | inl (n, p) ↦ ground (arith, p, h, w)
      | inr (e, p) ↦ absurd (ground (arith, p, h))
    ]
attempt-width (suc halvings) width rest r progress w h =
    let r' : Lmdb = (commit_deletion_batch (take width rest) r).1 in
    elim (Batch-cases (commit_deletion_batch (take width rest) r).0) [
      | inl (n, p) ↦ ground (arith, p, h, w)
      | inr (e, p) ↦ elim (Bool-cases (e.is_map_full && ltb 1 width)) [
        | inl y ↦
            attempt-width halvings (max (width / 2) 1) rest r' progress (omega arith)
              (ground (arith, p, y, h))
        | inr n ↦ absurd (ground (arith, p, n, h))
      ]
    ]

length-drop : {A : Type 0} (n : ℕ) (xs : List A) → length (drop n xs) ≡ length xs - n
length-drop zero xs = omega arith
length-drop (suc n) [] = omega arith
length-drop (suc n) (x ∷ xs) = omega (arith, length-drop n xs)

sweep-ok :
    (fuel : ℕ) (entry : Expired) (rest : List Expired) (deleted : ℕ) (r : Lmdb) (progress : ℕ × ℕ)
    → let queue = entry ∷ rest in
      let run =
        attempt cleanup_max_batch_halvings (min lmdb_cleanup_batch_size (length queue)) queue r in
      run.0 ≡ ok progress
      → sweep (suc fuel) queue deleted r
        ≡ sweep fuel (drop progress.1 queue) (deleted + progress.0) run.1
unfolding sweep
sweep-ok fuel entry rest deleted r progress p = ground (arith, p)

sweep-returns :
    (fuel : ℕ) (queue : List Expired) (deleted : ℕ) (r : Lmdb)
    → length queue ≤ fuel
    → (x : Result ℕ × Lmdb) × (sweep fuel queue deleted r ≡ some x)
unfolding sweep
sweep-returns fuel [] deleted r h = ((ok deleted, r), refl)
sweep-returns zero (entry ∷ rest) deleted r h = absurd (omega (arith, h))
sweep-returns (suc fuel) (entry ∷ rest) deleted r h =
    let queue : List Expired = entry ∷ rest in
    let width : ℕ = min lmdb_cleanup_batch_size (length queue) in
    let run : Result (ℕ × ℕ) × Lmdb = attempt cleanup_max_batch_halvings width queue r in
    elim (Result-cases run.0) [
      | inl (progress, p) ↦
          (let wide =
              attempt-width cleanup_max_batch_halvings width queue r progress (omega arith) p in
            let (x, q) =
              sweep-returns fuel (drop progress.1 queue) (deleted + progress.0) run.1
                (omega (arith, h, wide, length-drop progress.1 queue)) in
            (x, sweep-ok fuel entry rest deleted r progress p ∙ q))
      | inr (inl (e, p)) ↦ ((err e, run.1), ground (arith, p))
      | inr (inr p) ↦ ((panicked, run.1), ground (arith, p))
    ]

cleanup-ok :
    (now : ℕ) (r : Lmdb) (rows : List Expired)
    → let run = transaction (λ dbs. ok (expired_rows now dbs, dbs)) r in
      run.0 ≡ ok rows
      → cleanup_expired_sessions now r
        ≡ Option.map (after_sweep now) (sweep (length rows) rows 0 run.1)
unfolding cleanup_expired_sessions
cleanup-ok now r rows p = ground (arith, p)

-- The cleanup comes to an end for every store and every run of faults: as many rounds as there are
-- expired rows are enough for its loop.
pub cleanup_expired_sessions-returns :
    (now : ℕ) (r : Lmdb) → (x : Result ℕ × Lmdb) × (cleanup_expired_sessions now r ≡ some x)
unfolding cleanup_expired_sessions
cleanup_expired_sessions-returns now r =
    let run : Result (List Expired) × Lmdb =
      transaction (λ dbs. ok (expired_rows now dbs, dbs)) r in
    elim (Result-cases run.0) [
      | inl (rows, p) ↦
          (let (x, q) = sweep-returns (length rows) rows 0 run.1 (omega arith) in
            (after_sweep now x, cleanup-ok now r rows p ∙ ap (Option.map (after_sweep now)) q))
      | inr (inl (e, p)) ↦ ((err e, run.1), ground (arith, p))
      | inr (inr p) ↦ ((panicked, run.1), ground (arith, p))
    ]
