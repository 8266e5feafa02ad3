-- ===== src/Lmdb/Rotation.antt =====
-- One redemption: what a winning swap asked for and leaves behind, and that it keeps the databases
-- consistent.
pub mod Effect
pub mod Wins
use oidc_exchange.Base.{
  ℕ, ◌≡◌, ◌≢◌, ◌⊎◌, refl, sym, ◌∙◌, ap, Bool, true, false, some, none, [], Text, is_empty, ◌<◌,
  contains_key, text_eq, text_eq_iff, get, arith, inl, inr, Bool-cases, Option-cases,
}
use oidc_exchange.Error.{Result-cases, ok, err, panicked, Result}
use oidc_exchange.Domain.Session.{
  Session, RetiredRefreshToken, is_valid_family_id, retention_deadline,
}
use oidc_exchange.Lmdb.{Dbs, remove_live_entry, put_retired, install_live_entry, retirement_record}
use oidc_exchange.Lmdb.Sessions.{rotate_in}
use oidc_exchange.Lmdb.Consistent.{Consistent}

-- The record that a winning redemption writes for `live`.
unfoldable pub left_behind : Text → Session → Session → ℕ → ℕ → RetiredRefreshToken
left_behind live_hash live replacement now expires_at = record {
  refresh_token_hash = live_hash;
  family_id = live.family_id;
  user_id = live.user_id;
  successor_hash = replacement.refresh_token_hash;
  retired_at = now;
  expires_at = expires_at;
}

module _ (live_hash : Text) (replacement : Session) (secs now : ℕ) (d : Dbs) where
  -- What the assertions of a winning swap have checked.
  pub record Swapped (live : Session) : Type 0 where
    pub found : get live_hash d.sessions ≡ some live
    pub same_family : (is_empty live.family_id ≡ true) ⊎ (live.family_id ≡ replacement.family_id)
    pub same_user : live.user_id ≡ replacement.user_id
    pub new_live : get replacement.refresh_token_hash d.sessions ≡ none
    pub new_retired : get replacement.refresh_token_hash d.retired_tokens ≡ none

  abbrev pub without : Session → Dbs
  without live = (remove_live_entry d live_hash live).1

  -- The two forms of the databases after a win.
  pub data Won (live : Session) (d' : Dbs) : Type 0 where
    legacy :
        is_empty live.family_id ≡ true
        → d' ≡ install_live_entry (without live) replacement
        → Won live d'
    rotated :
        (expires_at : ℕ)
        → is_empty live.family_id ≡ false
        → is_valid_family_id live.family_id ≡ true
        → retention_deadline now secs replacement.expires_at ≡ ok expires_at
        → d'
          ≡ install_live_entry
              (put_retired (without live) (left_behind live_hash live replacement now expires_at))
              replacement
        → Won live d'

  pub swapped :
      (live : Session) (b : Bool) (d' : Dbs)
      → get live_hash d.sessions ≡ some live
      → rotate_in live_hash replacement secs now d ≡ ok (b, d')
      → Swapped live
  unfolding rotate_in contains_key
  swapped live b d' found h = ground (
    arith,
    text_eq_iff live.family_id replacement.family_id,
    text_eq_iff live.user_id replacement.user_id,
  )

  -- A call that returns `true` has left the databases in one of the two forms.
  pub won :
      (live : Session) (b : Bool) (d' : Dbs)
      → get live_hash d.sessions ≡ some live
      → rotate_in live_hash replacement secs now d ≡ ok (b, d')
      → (b ≡ true) × Won live d'
  unfolding rotate_in retirement_record left_behind
  won live b d' found h = elim (Bool-cases (is_empty live.family_id)) [
    | inl e ↦ (ground arith, legacy e (ground arith))
    | inr e ↦ elim (Result-cases (retention_deadline now secs replacement.expires_at)) [
      | inl x ↦ (ground arith, rotated x.0 e (ground arith) x.1 (ground arith))
      | inr (inl x) ↦ absurd (ground arith)
      | inr (inr x) ↦ absurd (ground arith)
    ]
  ]
