-- ===== src/Lmdb/Atomic.antt =====
-- One LMDB transaction: all of its writes or none.
use oidc_exchange.Base.{◌≡◌, ◌≢◌, refl, ap, Option, none, some, List, [], ◌∷◌}
use oidc_exchange.Error.{Result, ok, err, panicked}
use oidc_exchange.Lmdb.{Dbs, HeedError, Lmdb, settle, begin_txn, transaction}

-- Whether the next transaction is failed by LMDB.
abbrev pub next_fault : Lmdb → Option HeedError
next_fault r = elim r.faults [ [] ↦ none | f ∷ _ ↦ f ]

abbrev pub later_faults : Lmdb → List (Option HeedError)
later_faults r = elim r.faults [ [] ↦ [] | _ ∷ rest ↦ rest ]

module _ {A : Type 0} (body : Dbs → Result (A × Dbs)) where
  settle-ok :
      (r : Lmdb) (q : Result (A × Dbs)) (a : A)
      → (settle r q).0 ≡ ok a
      → q ≡ ok (a, (settle r q).1.dbs)
  settle-ok r (ok (b, d)) a h = cc
  settle-ok r (err e) a h = cc
  settle-ok r panicked a h = cc

  begin_txn-ok :
      (faults : List (Option HeedError)) (r : Lmdb) (a : A)
      → (begin_txn body faults r).0 ≡ ok a
      → body r.dbs ≡ ok (a, (begin_txn body faults r).1.dbs)
  unfolding begin_txn
  begin_txn-ok [] r a h = settle-ok r (body r.dbs) a h
  begin_txn-ok (none ∷ rest) r a h = settle-ok (record r { faults = rest }) (body r.dbs) a h
  begin_txn-ok (some e ∷ rest) r a h = cc

  -- A transaction that returns has run its body, and left the databases as the body did.
  pub transaction-ok :
      (r : Lmdb) (a : A)
      → (transaction body r).0 ≡ ok a
      → body r.dbs ≡ ok (a, (transaction body r).1.dbs)
  unfolding transaction
  transaction-ok r a h = begin_txn-ok r.faults r a h

  settle-failed :
      (r : Lmdb) (q : Result (A × Dbs))
      → ((a : A) → (settle r q).0 ≢ ok a)
      → (settle r q).1.dbs ≡ r.dbs
  settle-failed r (ok (b, d)) n = absurd (n b refl)
  settle-failed r (err e) n = refl
  settle-failed r panicked n = refl

  begin_txn-failed :
      (faults : List (Option HeedError)) (r : Lmdb)
      → ((a : A) → (begin_txn body faults r).0 ≢ ok a)
      → (begin_txn body faults r).1.dbs ≡ r.dbs
  unfolding begin_txn
  begin_txn-failed [] r n = settle-failed r (body r.dbs) n
  begin_txn-failed (none ∷ rest) r n = settle-failed (record r { faults = rest }) (body r.dbs) n
  begin_txn-failed (some e ∷ rest) r n = refl

  -- One that does not return leaves the databases as they were.
  pub transaction-failed :
      (r : Lmdb) → ((a : A) → (transaction body r).0 ≢ ok a) → (transaction body r).1.dbs ≡ r.dbs
  unfolding transaction
  transaction-failed r n = begin_txn-failed r.faults r n

  settle-runs :
      (r : Lmdb) (q : Result (A × Dbs)) (a : A) (d : Dbs)
      → q ≡ ok (a, d)
      → settle r q ≡ (ok a, record r { dbs = d })
  settle-runs r q a d h = rw h refl

  begin_txn-runs :
      (faults : List (Option HeedError)) (r : Lmdb) (a : A) (d : Dbs)
      → elim faults [ [] ↦ none | f ∷ _ ↦ f ] ≡ none
      → r.faults ≡ faults
      → body r.dbs ≡ ok (a, d)
      → begin_txn body faults r
        ≡ (ok a, record r { dbs = d; faults = elim faults [ [] ↦ [] | _ ∷ rest ↦ rest ] })
  unfolding begin_txn
  begin_txn-runs [] r a d f s h = rw h (ap (λ fs. (ok a, record r { dbs = d; faults = fs })) s)
  begin_txn-runs (none ∷ rest) r a d f s h =
      settle-runs (record r { faults = rest }) (body r.dbs) a d h
  begin_txn-runs (some e ∷ rest) r a d f s h = cc

  -- One that LMDB does not fail runs its body.
  pub transaction-runs :
      (r : Lmdb) (a : A) (d : Dbs)
      → next_fault r ≡ none
      → body r.dbs ≡ ok (a, d)
      → transaction body r ≡ (ok a, record r { dbs = d; faults = later_faults r })
  unfolding transaction
  transaction-runs r a d f h = begin_txn-runs r.faults r a d f refl h
