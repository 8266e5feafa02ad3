-- ===== src/Tests/Rows.antt =====
-- The sessions and stores of the tests.
use oidc_exchange.Base.{
  ◌≡◌, ◌≢◌, refl, sym, ◌∙◌, true, false, none, [], Text, codes, text_eq, text_eq_iff, get, has_char,
  strip_prefix, inr,
}
use mathlib.Core.Bool.{false≢true}
use oidc_exchange.Domain.Session.{Session, is_valid_family_id}
use oidc_exchange.Lmdb.{Dbs, Lmdb, install_live_entry}
use oidc_exchange.Lmdb.Consistent.{Consistent}
use oidc_exchange.Lmdb.Consistent.Install.{Installable, install_live_entry-Consistent}
use oidc_exchange.Lmdb.Reach.{no_rows, no_rows-Consistent}

abbrev pub family : Text
family = codes "fam_0123456789abcdefghjkmnpqrs"

abbrev pub session_of : Text → Session
session_of hash = record {
  user_id = codes "usr_1";
  refresh_token_hash = hash;
  family_id = family;
  generation = 0;
  provider = codes "google";
  expires_at = 90_000_000_000;
  rotated_at = none;
  device_id = none;
  user_agent = none;
  ip_address = none;
  location = none;
  created_at = 1_000_000_000;
}

abbrev pub hash_a : Text
hash_a = codes "a"

abbrev pub hash_b : Text
hash_b = codes "b"

abbrev pub hash_c : Text
hash_c = codes "c"

text_ne : (a b : Text) → text_eq a b ≡ false → a ≢ b
text_ne a b h e = false≢true (sym h ∙ (text_eq_iff a b).1 e)

pub a_not_b : hash_a ≢ hash_b
a_not_b = text_ne hash_a hash_b (unfold text_eq in refl)

pub a_not_c : hash_a ≢ hash_c
a_not_c = text_ne hash_a hash_c (unfold text_eq in refl)

pub b_not_c : hash_b ≢ hash_c
b_not_c = text_ne hash_b hash_c (unfold text_eq in refl)

pub family_valid : is_valid_family_id family ≡ true
unfolding is_valid_family_id strip_prefix has_char
family_valid = refl

-- A store with the one session `a`.
abbrev pub one_row : Dbs
one_row = install_live_entry no_rows (session_of hash_a)

pub one_row-Installable : Installable no_rows (session_of hash_a)
unfolding get has_char
one_row-Installable = record {
  owner = refl;
  family = inr family_valid;
  not_live = refl;
  not_retired = refl;
  heir = λ h r g. cc;
  alone = λ e j t g. cc;
}

pub one_row-Consistent : Consistent one_row
one_row-Consistent =
    install_live_entry-Consistent no_rows no_rows-Consistent (session_of hash_a) one_row-Installable

abbrev pub with_rows : Dbs → Lmdb
with_rows d = record {
  dbs = d;
  faults = [];
  join_error = codes "task panicked";
  reuse_retention_secs = 60;
}
