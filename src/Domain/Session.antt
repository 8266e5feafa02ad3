-- ===== src/Domain/Session.antt =====
-- crates/core/src/domain/session.rs: session families, retirement records and how a presented hash
-- classifies. An instant is a number of nanoseconds since the epoch.
use oidc_exchange.Base.{
  ℕ, ◌+◌, ◌-◌, ◌*◌, ◌^◌, ◌<◌, ◌≤◌, ◌≡◌, refl, Bool, true, false, ◌&&◌, Option, none, some, [], ◌∷◌,
  ◌++◌, arith, ltb, leb, ◌==◌, if◌then◌else◌, Text, codes, strip_prefix, strip_prefix-some, length,
  has_char, inl, inr, Option-cases,
}
use mathlib.Core.Bool.{false≢true}
use oidc_exchange.Error.{Result, ok, panicked, assert, ◌>>◌, ◌>>=◌}

abbrev pub family_id_prefix : Text
family_id_prefix = codes "fam_"

abbrev pub ulid_char_len : ℕ
ulid_char_len = 26

abbrev ulid_lowercase_alphabet : Text
ulid_lowercase_alphabet = codes "0123456789abcdefghjkmnpqrstvwxyz"

all_in_alphabet : Text → Bool
all_in_alphabet [] = true
all_in_alphabet (c ∷ t) = has_char c ulid_lowercase_alphabet && all_in_alphabet t

ulid_part_ok : Option Text → Bool
unfolding all_in_alphabet
ulid_part_ok none = false
ulid_part_ok (some ulid_part) =
    if length ulid_part == ulid_char_len then all_in_alphabet ulid_part else false

unfoldable pub is_valid_family_id : Text → Bool
unfolding ulid_part_ok
is_valid_family_id id = ulid_part_ok (strip_prefix family_id_prefix id)

pub record SessionLocation : Type 0 where
  pub city : Option Text
  pub region : Option Text
  pub country : Option Text

pub record Session : Type 0 where
  pub user_id : Text
  pub refresh_token_hash : Text
  pub family_id : Text
  pub generation : ℕ  -- u32
  pub provider : Text
  pub expires_at : ℕ
  pub rotated_at : Option ℕ
  pub device_id : Option Text
  pub user_agent : Option Text
  pub ip_address : Option Text
  pub location : Option SessionLocation
  pub created_at : ℕ

pub record RetiredRefreshToken : Type 0 where
  pub refresh_token_hash : Text
  pub family_id : Text
  pub user_id : Text
  pub successor_hash : Text
  pub retired_at : ℕ
  pub expires_at : ℕ

pub data RefreshResolution : Type 0 where
  live : Session → RefreshResolution
  superseded : Session → ℕ → RefreshResolution
  retired : Text → Text → ℕ → RefreshResolution
  unknown : RefreshResolution

-- `chrono::Duration::seconds`, in nanoseconds.
abbrev pub seconds : ℕ → ℕ
seconds n = n * 1_000_000_000

-- The last second that an instant can have (`chrono::DateTime::<Utc>::MAX_UTC`).
abbrev pub max_timestamp : ℕ
max_timestamp = 8_210_266_876_799

-- How many seconds before the epoch the first instant is (`MIN_UTC`).
abbrev min_timestamp_back : ℕ
min_timestamp_back = 8_334_601_228_800

-- The longest `chrono::Duration`, in seconds (`i64::MAX / 1000`).
abbrev max_duration_secs : ℕ
max_duration_secs = 9_223_372_036_854_775

-- `at + Duration::seconds(n)`, which panics out of the range of a duration or an instant.
unfoldable pub seconds_after : ℕ → ℕ → Result ℕ
seconds_after at n =
    if ltb max_duration_secs n
    then panicked
    else if leb (seconds (max_timestamp + 1)) (at + seconds n)
    then panicked
    else ok (at + seconds n)

-- The same of `-n`. An instant before the epoch, which every clock is past, is kept as the epoch.
unfoldable pub seconds_before : ℕ → ℕ → Result ℕ
seconds_before at n =
    if ltb max_duration_secs n
    then panicked
    else if ltb (at + seconds min_timestamp_back) (seconds n)
    then panicked
    else ok (at - seconds n)

-- `at + Duration::seconds(secs as i64)` of a `u64`: from 2^63 on the cast is negative.
unfoldable pub plus_cast_seconds : ℕ → ℕ → Result ℕ
plus_cast_seconds at secs =
    if ltb secs (2 ^ 63) then seconds_after at secs else seconds_before at (2 ^ 64 - secs)

-- `RetiredRefreshToken::retention_deadline`
unfoldable pub retention_deadline : ℕ → ℕ → ℕ → Result ℕ
retention_deadline retired_at reuse_retention_secs family_expires_at = do
  assert (ltb 0 reuse_retention_secs)
  by_retention ← plus_cast_seconds retired_at reuse_retention_secs
  ok (if ltb by_retention family_expires_at then by_retention else family_expires_at)

-- In the range of an instant the deadline is computed without a wrap or a panic.
pub retention_deadline-ok :
    (now secs e : ℕ)
    → 0 < secs
    → now + seconds secs < seconds (max_timestamp + 1)
    → retention_deadline now secs e
      ≡ ok (if ltb (now + seconds secs) e then now + seconds secs else e)
unfolding retention_deadline plus_cast_seconds seconds_after
retention_deadline-ok now secs e h k = ground (arith, h, k)

-- From 2^63 on the cast is negative, and the deadline is not after the retirement.
pub retention_deadline-wrapped :
    (now secs e d : ℕ) → 2 ^ 63 ≤ secs → retention_deadline now secs e ≡ ok d → d ≤ now
unfolding retention_deadline plus_cast_seconds seconds_before
retention_deadline-wrapped now secs e d h k = ground (arith, h, k)

-- What operators see of a session family.
pub record SessionSummary : Type 0 where
  pub id : Text
  pub provider : Text
  pub user_agent : Option Text
  pub ip_address : Option Text
  pub location : Option SessionLocation
  pub created_at : ℕ
  pub expires_at : ℕ

-- `digest` is the base64url of the first 16 bytes of the SHA-256 digest.
unfoldable pub session_id_for_family : (Text → Text) → Text → Text
session_id_for_family digest family_id =
    codes "ses_" ++ digest (codes "oidc-exchange/session-id/v1:" ++ family_id)

-- `SessionSummary::from`
unfoldable pub summary : (Text → Text) → Session → SessionSummary
summary digest s = record {
  id = session_id_for_family digest s.family_id;
  provider = s.provider;
  user_agent = s.user_agent;
  ip_address = s.ip_address;
  location = s.location;
  created_at = s.created_at;
  expires_at = s.expires_at;
}

-- No character of the alphabet is NUL.
alphabet-no_nul : (c : ℕ) → has_char c ulid_lowercase_alphabet ≡ true → (c == 0) ≡ false
unfolding has_char
alphabet-no_nul c h = ground arith

has_char-cons_no_nul :
    (c : ℕ) (t : Text) → (c == 0) ≡ false → has_char 0 t ≡ false → has_char 0 (c ∷ t) ≡ false
unfolding has_char
has_char-cons_no_nul c t h k = ground arith

all_in_alphabet-no_nul : (t : Text) → all_in_alphabet t ≡ true → has_char 0 t ≡ false
unfolding all_in_alphabet
all_in_alphabet-no_nul [] h = unfold has_char in refl
all_in_alphabet-no_nul (c ∷ t) h =
    ground (arith, alphabet-no_nul c, has_char-cons_no_nul c t, all_in_alphabet-no_nul t)

part_in_alphabet : (t : Text) → ulid_part_ok (some t) ≡ true → all_in_alphabet t ≡ true
unfolding ulid_part_ok
part_in_alphabet t h = ground arith

has_char-fam : (t : Text) → has_char 0 t ≡ false → has_char 0 (family_id_prefix ++ t) ≡ false
unfolding has_char
has_char-fam t h = h

-- A well-formed family id has no NUL, so a NUL ends it in a composite key.
pub is_valid_family_id-no_nul : (id : Text) → is_valid_family_id id ≡ true → has_char 0 id ≡ false
unfolding is_valid_family_id
is_valid_family_id-no_nul id h = elim (Option-cases (strip_prefix family_id_prefix id)) [
  | inl e ↦ absurd (false≢true (rw e at h))
  | inr e ↦
      rw (strip_prefix-some family_id_prefix id e.0 e.1)
        (has_char-fam e.0 (all_in_alphabet-no_nul e.0 (part_in_alphabet e.0 (rw e.1 at h))))
]

pub is_valid_family_id-empty : is_valid_family_id [] ≡ false
unfolding is_valid_family_id
is_valid_family_id-empty = unfold strip_prefix in refl
