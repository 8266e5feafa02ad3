-- ===== src/Tests/Store.antt =====
-- The redemption path of the LMDB store at concrete sessions.
use oidc_exchange.Base.{
  ◌+◌, ◌≡◌, ◌≢◌, refl, sym, ◌∙◌, true, false, some, none, [], length, Text, codes, get, put,
  is_empty, inl, inr, arith, text_eq, contains_key, delete, strip_prefix, has_char, text_lt,
  prefix_iter, text_eq_iff, Bool-cases,
}
use mathlib.Core.Bool.{false≢true}
use oidc_exchange.Error.{ok}
use oidc_exchange.Domain.Session.{
  Session, RetiredRefreshToken, live, superseded, retired, unknown, is_valid_family_id,
  retention_deadline, plus_cast_seconds, seconds_after, seconds_before,
}
use oidc_exchange.Lmdb.{
  Lmdb, install_live_entry, user_session_key, family_index_key, transaction, begin_txn,
  remove_live_entry, remove_retired_entry, put_retired, retirement_record,
}
use oidc_exchange.Lmdb.Atomic.{next_fault, later_faults}
use oidc_exchange.Lmdb.Sessions.{
  rotate_in, rotate_refresh_token, resolve_refresh_token, revoke_family, revoke_family_wtxn,
  store_refresh_token, kinds_known, family_entries, remove_family_sessions, of_kind,
  remove_family_records,
}
use oidc_exchange.Lmdb.Consistent.{Consistent}
use oidc_exchange.Lmdb.Rotation.{Swapped, left_behind}
use oidc_exchange.Lmdb.Rotation.Effect.{Minted, Effect}
use oidc_exchange.Lmdb.Calls.{rotate_refresh_token-wins, rotate-rotate}
use oidc_exchange.Lmdb.Calls.Reuse.{rotate-resolve, rotate-rotate-resolve, rotate-resolve_wrapped}
use oidc_exchange.Lmdb.Calls.Revocation.{revoke_family-Revoked, revoke_family-refuses}
use oidc_exchange.Lmdb.Family.Revoke.{Revoked, lives, dead}
use oidc_exchange.Lmdb.Reach.{no_rows, new, opened, stored, Reached-Consistent}
use oidc_exchange.Tests.Rows.{
  one_row-Installable, family, family_valid, session_of, hash_a, hash_b, hash_c, a_not_b, a_not_c,
  b_not_c, one_row, one_row-Consistent, with_rows,
}

abbrev start : Lmdb
start = with_rows one_row

start_found : get hash_a start.dbs.sessions ≡ some (session_of hash_a)
unfolding install_live_entry put get text_eq
start_found = refl

full : {s : Session} → session_of hash_a ≡ s → is_empty s.family_id ≢ true
unfolding is_empty
full p e = cc

full_b : {s : Session} → session_of hash_b ≡ s → is_empty s.family_id ≢ true
unfolding is_empty
full_b p e = cc

deadline : retention_deadline 5 60 (session_of hash_b).expires_at ≡ ok 60_000_000_005
unfolding retention_deadline plus_cast_seconds seconds_after
deadline = refl

start_Minted : Minted hash_a (session_of hash_b) start.dbs
unfolding install_live_entry get
start_Minted = record {
  family = family_valid;
  different = a_not_b;
  unnamed = λ h r g. cc;
  new_family = λ s g e j t k. absurd (full {s = s} (cc (g, start_found)) e);
}

start_Swapped : Swapped hash_a (session_of hash_b) 60 5 start.dbs (session_of hash_a)
unfolding install_live_entry put get text_eq
start_Swapped = record {
  found = refl;
  same_family = inr refl;
  same_user = refl;
  new_live = refl;
  new_retired = refl;
}

abbrev rotated : Lmdb
rotated = (rotate_refresh_token hash_a (session_of hash_b) 5 start).1

start_won : (rotate_refresh_token hash_a (session_of hash_b) 5 start).0 ≡ ok true
start_won =
    (rotate_refresh_token-wins hash_a (session_of hash_b) 5 start (session_of hash_a)
      one_row-Consistent start_Minted start_Swapped (omega arith) (omega arith) refl).0

rotated_faults : next_fault rotated ≡ none
unfolding rotate_refresh_token is_valid_family_id strip_prefix has_char text_eq transaction
    rotate_in get install_live_entry put is_empty contains_key retirement_record retention_deadline
    plus_cast_seconds seconds_after
rotated_faults = refl

rotate_refresh_token-wins_example :
    ((rotate_refresh_token hash_a (session_of hash_b) 5 start).0 ≡ ok true)
    × Effect hash_a
        (session_of hash_b)
        60
        5
        start.dbs
        (session_of hash_a)
        (rotate_refresh_token hash_a (session_of hash_b) 5 start).1.dbs
rotate_refresh_token-wins_example =
    rotate_refresh_token-wins hash_a (session_of hash_b) 5 start (session_of hash_a)
      one_row-Consistent start_Minted start_Swapped (omega arith) (omega arith) refl

rotate-rotate_example :
    rotate_refresh_token hash_a (session_of hash_c) 6 rotated
    ≡ (ok false, record rotated { faults = later_faults rotated })
rotate-rotate_example =
    rotate-rotate hash_a (session_of hash_b) (session_of hash_c) 5 6 start one_row-Consistent
      start_Minted (family_valid, a_not_c) start_won rotated_faults

rotate-resolve_example :
    ((resolve_refresh_token hash_b 7 rotated).0 ≡ ok (live (session_of hash_b)))
    × ((resolve_refresh_token hash_a 7 rotated).0 ≡ ok (superseded (session_of hash_b) 5))
unfolding is_empty
rotate-resolve_example =
    rotate-resolve hash_a (session_of hash_b) 5 7 start (session_of hash_a) 60_000_000_005
      one_row-Consistent start_Minted start_found refl deadline refl refl start_won rotated_faults

rotated_Effect : Effect hash_a (session_of hash_b) 60 5 start.dbs (session_of hash_a) rotated.dbs
rotated_Effect = rotate_refresh_token-wins_example.1

rotated_unnamed :
    (h : Text) (r : RetiredRefreshToken)
    → get h rotated.dbs.retired_tokens ≡ some r
    → r.successor_hash ≢ hash_c
unfolding left_behind install_live_entry get is_empty
rotated_unnamed h r g e = elim (Bool-cases (text_eq h hash_a)) [
  | inl y ↦
      let (x, d, k) = Effect.retired rotated_Effect refl in
      b_not_c (cc (k, g, e, (text_eq_iff h hash_a).0 y))
  | inr n ↦ cc (
    Effect.other_record rotated_Effect h (λ p. false≢true (sym n ∙ (text_eq_iff h hash_a).1 p)),
    g,
  )
]

rotated_Minted : Minted hash_b (session_of hash_c) rotated.dbs
rotated_Minted = record {
  family = family_valid;
  different = b_not_c;
  unnamed = rotated_unnamed;
  new_family = λ s g e j t k. absurd (full_b {s = s} (cc (g, rotated_Effect.installed)) e);
}

abbrev rotated_twice : Lmdb
rotated_twice = (rotate_refresh_token hash_b (session_of hash_c) 6 rotated).1

rotated_Swapped : Swapped hash_b (session_of hash_c) 60 6 rotated.dbs (session_of hash_b)
unfolding rotate_refresh_token is_valid_family_id strip_prefix has_char text_eq transaction
    rotate_in get install_live_entry put is_empty contains_key retirement_record retention_deadline
    plus_cast_seconds seconds_after put_retired remove_live_entry
rotated_Swapped = record {
  found = rotated_Effect.installed;
  same_family = inr refl;
  same_user = refl;
  new_live = refl;
  new_retired = refl;
}

rotated_won : (rotate_refresh_token hash_b (session_of hash_c) 6 rotated).0 ≡ ok true
unfolding rotate_refresh_token is_valid_family_id strip_prefix has_char text_eq transaction
    rotate_in get install_live_entry put is_empty contains_key retirement_record retention_deadline
    plus_cast_seconds seconds_after
rotated_won =
    (rotate_refresh_token-wins hash_b (session_of hash_c) 6 rotated (session_of hash_b)
      rotated_Effect.consistent rotated_Minted rotated_Swapped (omega arith) (omega arith)
      rotated_faults).0

rotated_twice_faults : next_fault rotated_twice ≡ none
unfolding rotate_refresh_token is_valid_family_id strip_prefix has_char text_eq transaction
    rotate_in get install_live_entry put is_empty contains_key retirement_record retention_deadline
    plus_cast_seconds seconds_after text_lt delete remove_live_entry user_session_key
    family_index_key put_retired begin_txn
rotated_twice_faults = refl

rotate-rotate-resolve_example :
    (resolve_refresh_token hash_a 7 rotated_twice).0 ≡ ok (retired family (codes "usr_1") 5)
unfolding is_empty
rotate-rotate-resolve_example =
    rotate-rotate-resolve hash_a (session_of hash_b) (session_of hash_c) 5 6 7 start
      (session_of hash_a) 60_000_000_005 one_row-Consistent start_Minted start_found refl deadline
      refl start_won rotated_Minted a_not_c rotated_won rotated_twice_faults

-- A retention of 2^64 - 1 seconds ends a second before the redemption.
abbrev retaining : Lmdb
retaining = record start { reuse_retention_secs = 18_446_744_073_709_551_615 }

retaining_won :
    (rotate_refresh_token hash_a (session_of hash_b) 5_000_000_000 retaining).0 ≡ ok true
unfolding rotate_refresh_token is_valid_family_id strip_prefix has_char text_eq transaction
    rotate_in get install_live_entry put is_empty contains_key retirement_record retention_deadline
    plus_cast_seconds seconds_before
retaining_won = refl

retaining_faults :
    next_fault (rotate_refresh_token hash_a (session_of hash_b) 5_000_000_000 retaining).1 ≡ none
unfolding rotate_refresh_token is_valid_family_id strip_prefix has_char text_eq transaction
    rotate_in get install_live_entry put is_empty contains_key retirement_record retention_deadline
    plus_cast_seconds seconds_before
retaining_faults = refl

rotate-resolve_wrapped_example :
    let r' = (rotate_refresh_token hash_a (session_of hash_b) 5_000_000_000 retaining).1 in
    (resolve_refresh_token hash_a 5_000_000_000 r').0 ≡ ok unknown
unfolding is_empty
rotate-resolve_wrapped_example =
    rotate-resolve_wrapped hash_a (session_of hash_b) 5_000_000_000 5_000_000_000 retaining
      (session_of hash_a) one_row-Consistent start_Minted start_found refl (omega arith)
      (omega arith) refl refl retaining_won retaining_faults

revoke_family-Revoked_example :
    ((revoke_family family start).0
      ≡ ok (
          length (lives family family_valid one_row one_row-Consistent)
          + length (dead family family_valid one_row one_row-Consistent)))
    × Revoked family start.dbs (revoke_family family start).1.dbs
revoke_family-Revoked_example =
    revoke_family-Revoked family start family_valid one_row-Consistent refl

revoked_faults : next_fault (revoke_family family start).1 ≡ none
unfolding revoke_family is_valid_family_id strip_prefix has_char transaction revoke_family_wtxn
    kinds_known family_entries prefix_iter install_live_entry is_empty put family_index_key text_eq
    remove_family_sessions of_kind get remove_family_records text_lt contains_key delete begin_txn
    remove_live_entry remove_retired_entry user_session_key
revoked_faults = refl

revoke_family-refuses_example :
    ((resolve_refresh_token hash_a 8 (revoke_family family start).1).0 ≡ ok unknown)
    × ((rotate_refresh_token hash_a (session_of hash_b) 8 (revoke_family family start).1).0
        ≡ ok false)
unfolding is_empty
revoke_family-refuses_example =
    revoke_family-refuses family hash_a (session_of hash_b) 8 start family_valid one_row-Consistent
      (inl (session_of hash_a, start_found, refl)) refl (family_valid, a_not_b) refl revoked_faults

Reached-Consistent_example :
    Consistent (store_refresh_token (session_of hash_a) (with_rows no_rows)).1.dbs
unfolding new
Reached-Consistent_example =
    Reached-Consistent (store_refresh_token (session_of hash_a) (with_rows no_rows)).1 (
      stored (with_rows no_rows) (session_of hash_a)
        (opened 60 (codes "task panicked") [] (with_rows no_rows) refl) one_row-Installable)
