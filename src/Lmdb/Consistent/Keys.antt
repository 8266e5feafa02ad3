-- ===== src/Lmdb/Consistent/Keys.antt =====
-- Composite index keys agree only part by part, and what that gives for rows.
use oidc_exchange.Base.{
  ◌≡◌, ◌⊎◌, inl, inr, refl, true, false, [], Text, has_char, separated-injective,
}
use oidc_exchange.Domain.Session.{is_valid_family_id, is_valid_family_id-no_nul}
use oidc_exchange.Lmdb.{user_session_key, family_index_key}

pub user_session_key-injective :
    (u v h j : Text)
    → has_char b':' u ≡ false
    → has_char b':' v ≡ false
    → user_session_key u h ≡ user_session_key v j
    → (u ≡ v) × (h ≡ j)
unfolding user_session_key
user_session_key-injective u v h j hu hv e = separated-injective b':' u v h j hu hv e

-- A family id, or the empty text of a legacy row.
abbrev pub IsFamily : Text → Type 0
IsFamily f = (f ≡ []) ⊎ (is_valid_family_id f ≡ true)

IsFamily-no_nul : (f : Text) → IsFamily f → has_char 0 f ≡ false
IsFamily-no_nul f (inl e) = rw e (unfold has_char in refl)
IsFamily-no_nul f (inr v) = is_valid_family_id-no_nul f v

pub family_index_key-injective :
    (f g h j : Text)
    → IsFamily f
    → IsFamily g
    → family_index_key f h ≡ family_index_key g j
    → (f ≡ g) × (h ≡ j)
unfolding family_index_key
family_index_key-injective f g h j hf hg e =
    separated-injective 0 f g h j (IsFamily-no_nul f hf) (IsFamily-no_nul g hg) e
