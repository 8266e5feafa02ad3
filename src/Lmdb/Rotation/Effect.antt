-- ===== src/Lmdb/Rotation/Effect.antt =====
-- A winning redemption keeps the databases consistent, and its effects on the rows.
use oidc_exchange.Base.{
  ℕ, ◌≡◌, ◌≢◌, refl, sym, ◌∙◌, Bool, true, false, some, none, Text, is_empty, has_char, get, inl,
  inr,
}
use mathlib.Core.Bool.{false≢true}
use oidc_exchange.Error.{ok}
use oidc_exchange.Domain.Session.{
  Session, RetiredRefreshToken, is_valid_family_id, retention_deadline,
}
use oidc_exchange.Lmdb.{Dbs, put_retired, install_live_entry}
use oidc_exchange.Lmdb.Sessions.{rotate_in}
use oidc_exchange.Lmdb.Rotation.{left_behind, Swapped, Won, legacy, rotated, without, swapped, won}
use oidc_exchange.Lmdb.Consistent.{Consistent, SessionRow}
use oidc_exchange.Lmdb.Consistent.Remove
use oidc_exchange.Lmdb.Consistent.Retire
use oidc_exchange.Lmdb.Consistent.Retire.{Retirable}
use oidc_exchange.Lmdb.Consistent.Install
use oidc_exchange.Lmdb.Consistent.Install.{Installable}

-- What core guarantees of a replacement by minting it: its hash was never a successor, and the
-- family that it gives a legacy row is new.
pub record Minted (live_hash : Text) (replacement : Session) (d : Dbs) : Type 0 where
  pub family : is_valid_family_id replacement.family_id ≡ true
  pub different : live_hash ≢ replacement.refresh_token_hash
  pub unnamed :
      (h : Text) (r : RetiredRefreshToken)
      → get h d.retired_tokens ≡ some r
      → r.successor_hash ≢ replacement.refresh_token_hash
  pub new_family :
      (live : Session)
      → get live_hash d.sessions ≡ some live
      → is_empty live.family_id ≡ true
      → (j : Text) (t : Session) → get j d.sessions ≡ some t
      → replacement.family_id ≢ t.family_id

module _ (live_hash : Text) (replacement : Session) (secs now : ℕ) (d : Dbs) (live : Session) where
  -- The effects on the rows, and the invariant.
  pub record Effect (d' : Dbs) : Type 0 where
    pub consistent : Consistent d'
    pub installed : get replacement.refresh_token_hash d'.sessions ≡ some replacement
    pub gone : get live_hash d'.sessions ≡ none
    pub retired :
        is_empty live.family_id ≡ false
        → (expires_at : ℕ) × (retention_deadline now secs replacement.expires_at ≡ ok expires_at)
          × (get live_hash d'.retired_tokens
              ≡ some (left_behind live_hash live replacement now expires_at))
    pub other_session :
        (j : Text)
        → j ≢ live_hash
        → j ≢ replacement.refresh_token_hash
        → get j d'.sessions ≡ get j d.sessions
    pub other_record : (j : Text) → j ≢ live_hash → get j d'.retired_tokens ≡ get j d.retired_tokens

module _ (live_hash : Text) (replacement : Session) (secs now : ℕ) (d : Dbs) (c : Consistent d)
    (m : Minted live_hash replacement d) (live : Session)
    (s : Swapped live_hash replacement secs now d live) where
  abbrev removed : Dbs
  removed = without live_hash replacement secs now d live

  removed-Consistent : Consistent removed
  removed-Consistent = Remove.remove_live_entry-Consistent d c live_hash live s.found

  abbrev own : SessionRow d live_hash live
  own = c.session_row live_hash live s.found

  owner : has_char b':' replacement.user_id ≡ false
  owner = rw (← s.same_user) own.owner

  -- A legacy row is replaced with no record of it.
  legacy-Installable : is_empty live.family_id ≡ true → Installable removed replacement
  legacy-Installable e = record {
    owner = owner;
    family = inr m.family;
    not_live = Remove.still_absent d c live_hash live s.found _ s.new_live;
    not_retired = Remove.same_retired d c live_hash live s.found _ ∙ s.new_retired;
    heir = λ h r g n.
        absurd (m.unnamed h r (rw (Remove.same_retired d c live_hash live s.found) at g) n);
    alone = λ _ j t g.
        m.new_family live s.found e j t (Remove.other_session d c live_hash live s.found j t g).1;
  }

  module _ (expires_at : ℕ) (full : is_empty live.family_id ≡ false)
      (valid : is_valid_family_id live.family_id ≡ true) where
    abbrev behind : RetiredRefreshToken
    behind = left_behind live_hash live replacement now expires_at

    same_family : live.family_id ≡ replacement.family_id
    same_family = elim s.same_family [ inl e ↦ absurd (false≢true (sym full ∙ e)) | inr e ↦ e ]

    behind-Retirable : Retirable removed behind
    unfolding left_behind
    behind-Retirable = record {
      family = valid;
      not_live = Remove.removed d c live_hash live s.found;
      not_retired = Remove.same_retired d c live_hash live s.found live_hash ∙ own.not_retired;
      heir = λ t g.
          absurd (cc (s.new_live, (Remove.other_session d c live_hash live s.found _ t g).1));
    }

    abbrev marked : Dbs
    marked = put_retired removed behind

    marked-Consistent : Consistent marked
    marked-Consistent =
        Retire.put_retired-Consistent removed removed-Consistent behind behind-Retirable

    behind_hash : behind.refresh_token_hash ≡ live_hash
    unfolding left_behind
    behind_hash = refl

    other_session :
        (j : Text) (t : Session)
        → get j marked.sessions ≡ some t
        → (j ≢ live_hash) × (get j d.sessions ≡ some t)
    other_session j t g =
        Remove.other_session d c live_hash live s.found j t
          (rw (Retire.same_session removed removed-Consistent behind behind-Retirable) at g)

    same_record : (j : Text) → j ≢ live_hash → get j marked.retired_tokens ≡ get j d.retired_tokens
    same_record j n =
        Retire.kept_retired removed removed-Consistent behind behind-Retirable j (rw behind_hash n)
        ∙ Remove.same_retired d c live_hash live s.found j

    heir :
        (h : Text) (r : RetiredRefreshToken)
        → get h marked.retired_tokens ≡ some r
        → r.successor_hash ≡ replacement.refresh_token_hash
        → replacement.family_id ≡ r.family_id
    unfolding left_behind
    heir h r g n =
        elim (Retire.which_retired removed removed-Consistent behind behind-Retirable h r g) [
          | inl p ↦ cc (p.1, same_family)
          | inr p ↦
              absurd (m.unnamed h r (rw (Remove.same_retired d c live_hash live s.found) at p.1) n)
        ]

    alone :
        (j : Text) (t : Session)
        → get j marked.sessions ≡ some t
        → replacement.family_id ≢ t.family_id
    alone j t g e =
        let (n, g') = other_session j t g in
        n (sym (c.one_live live_hash j live t s.found g' full (same_family ∙ e)))

    replacement-Installable : Installable marked replacement
    replacement-Installable = record {
      owner = owner;
      family = inr m.family;
      not_live =
          Retire.same_session removed removed-Consistent behind behind-Retirable _
          ∙ Remove.still_absent d c live_hash live s.found _ s.new_live;
      not_retired = same_record _ (λ e. m.different (sym e)) ∙ s.new_retired;
      heir = heir;
      alone = λ _. alone;
    }

    behind_stored : get live_hash marked.retired_tokens ≡ some behind
    unfolding left_behind
    behind_stored = Retire.new_retired removed removed-Consistent behind behind-Retirable

  legacy-Effect :
      is_empty live.family_id ≡ true
      → Effect live_hash replacement secs now d live (install_live_entry removed replacement)
  legacy-Effect e =
      let i : Installable removed replacement = legacy-Installable e in
      record {
        consistent = Install.install_live_entry-Consistent removed removed-Consistent replacement i;
        installed = Install.new_session removed removed-Consistent replacement i;
        gone =
            Install.kept_session removed removed-Consistent replacement i live_hash m.different
            ∙ Remove.removed d c live_hash live s.found;
        retired = λ f. absurd (false≢true (sym f ∙ e));
        other_session = λ j n k.
            Install.kept_session removed removed-Consistent replacement i j k
            ∙ Remove.unchanged_session d c live_hash live s.found j n;
        other_record = λ j n.
            Install.same_retired removed removed-Consistent replacement i j
            ∙ Remove.same_retired d c live_hash live s.found j;
      }

  rotated-Effect :
      (expires_at : ℕ)
      → is_empty live.family_id ≡ false
      → is_valid_family_id live.family_id ≡ true
      → retention_deadline now secs replacement.expires_at ≡ ok expires_at
      → Effect live_hash replacement secs now d live (
          install_live_entry
            (put_retired removed (left_behind live_hash live replacement now expires_at))
            replacement)
  rotated-Effect x f v deadline =
      let i : Installable (marked x f v) replacement = replacement-Installable x f v in
      let k : Consistent (marked x f v) = marked-Consistent x f v in
      record {
        consistent = Install.install_live_entry-Consistent (marked x f v) k replacement i;
        installed = Install.new_session (marked x f v) k replacement i;
        gone =
            Install.kept_session (marked x f v) k replacement i live_hash m.different
            ∙ Retire.same_session removed removed-Consistent _ (behind-Retirable x f v) live_hash
            ∙ Remove.removed d c live_hash live s.found;
        retired = λ _. (
          x,
          deadline,
          Install.same_retired (marked x f v) k replacement i live_hash ∙ behind_stored x f v,
        );
        other_session = λ j n o.
            Install.kept_session (marked x f v) k replacement i j o
            ∙ Retire.same_session removed removed-Consistent _ (behind-Retirable x f v) j
            ∙ Remove.unchanged_session d c live_hash live s.found j n;
        other_record =
            λ j n. Install.same_retired (marked x f v) k replacement i j ∙ same_record x f v j n;
      }

  Won-Effect :
      (d' : Dbs)
      → Won live_hash replacement secs now d live d'
      → Effect live_hash replacement secs now d live d'
  Won-Effect d' (legacy e p) = rw p (legacy-Effect e)
  Won-Effect d' (rotated x f v deadline p) = rw p (rotated-Effect x f v deadline)

-- Whatever a call that returns has done: nothing, if the hash was not live; else the whole effect.
pub rotate_in-Effect :
    (live_hash : Text) (replacement : Session) (secs now : ℕ) (d : Dbs)
    → Consistent d
    → (m : Minted live_hash replacement d) (live : Session) (b : Bool) (d' : Dbs)
    → get live_hash d.sessions ≡ some live
    → rotate_in live_hash replacement secs now d ≡ ok (b, d')
    → (b ≡ true) × Effect live_hash replacement secs now d live d'
rotate_in-Effect live_hash replacement secs now d c m live b d' found h =
    let w = won live_hash replacement secs now d live b d' found h in
    (
      w.0,
      Won-Effect live_hash replacement secs now d c m live
          (swapped live_hash replacement secs now d live b d' found h) d' w.1,
    )
