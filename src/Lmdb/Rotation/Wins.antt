-- ===== src/Lmdb/Rotation/Wins.antt =====
-- When a redemption succeeds: the assertions of the swap hold on consistent databases for what core
-- mints.
use oidc_exchange.Base.{
  ℕ, ◌≡◌, ◌<◌, true, false, Text, is_empty, contains_key, text_eq_iff, arith, ltb, ◌+◌,
  if◌then◌else◌, inl, inr, Bool-cases,
}
use oidc_exchange.Error.{ok}
use oidc_exchange.Domain.Session.{
  Session, is_valid_family_id, retention_deadline-ok, seconds, max_timestamp,
}
use oidc_exchange.Lmdb.{Dbs, retirement_record, install_live_entry, put_retired}
use oidc_exchange.Lmdb.Sessions.{rotate_in}
use oidc_exchange.Lmdb.Rotation.{Swapped, without, left_behind}
use oidc_exchange.Lmdb.Consistent.{Consistent}
use oidc_exchange.Lmdb.Consistent.Keys.{IsFamily}

abbrev deadline : ℕ → ℕ → ℕ → ℕ
deadline now secs e = if ltb (now + seconds secs) e then now + seconds secs else e

valid_family : (f : Text) → IsFamily f → is_empty f ≡ false → is_valid_family_id f ≡ true
unfolding is_empty
valid_family f (inl p) e = absurd (cc (p, e))
valid_family f (inr v) e = v

-- A swap of what the store holds for what core mints goes through.
pub rotate_in-wins :
    (live_hash : Text) (replacement : Session) (secs now : ℕ) (d : Dbs)
    → Consistent d
    → (live : Session) → Swapped live_hash replacement secs now d live
    → 0 < secs
    → now + seconds secs < seconds (max_timestamp + 1)
    → (d' : Dbs) × (rotate_in live_hash replacement secs now d ≡ ok (true, d'))
unfolding rotate_in contains_key retirement_record left_behind
rotate_in-wins live_hash replacement secs now d c live s pos fits =
    let row = c.session_row live_hash live s.found in
    elim (Bool-cases (is_empty live.family_id)) [
      | inl e ↦ (
        install_live_entry (without live_hash replacement secs now d live) replacement,
        ground (
          arith,
          s.found,
          s.same_user,
          s.new_live,
          s.new_retired,
          e,
          text_eq_iff live.user_id replacement.user_id,
        ),
      )
      | inr e ↦ (
        install_live_entry
            (put_retired (without live_hash replacement secs now d live) (
              left_behind live_hash live replacement now
                (deadline now secs replacement.expires_at)))
            replacement,
        ground (
          arith,
          s.found,
          s.same_user,
          s.same_family,
          s.new_live,
          s.new_retired,
          e,
          row.hash,
          valid_family live.family_id row.family e,
          retention_deadline-ok now secs replacement.expires_at pos fits,
          text_eq_iff live.user_id replacement.user_id,
          text_eq_iff live.family_id replacement.family_id,
          text_eq_iff live.refresh_token_hash live_hash,
        ),
      )
    ]
