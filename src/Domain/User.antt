-- ===== src/Domain/User.antt =====
-- crates/core/src/domain/user.rs: the user lifecycle and the clamp of an admin page.
use oidc_exchange.Base.{ℕ, Bool, true, false, min, ◌==◌, if◌then◌else◌, codes, Option, List, Text}
use oidc_exchange.Error.{Result, ok, err, invalid_request}
use oidc_exchange.Domain.Audit.{Value}

pub data UserStatus : Type 0 where
  active suspended deleted : UserStatus

unfoldable pub can_transition_to : UserStatus → UserStatus → Bool
can_transition_to deleted _ = false
can_transition_to _ deleted = true
can_transition_to _ _ = true

pub record User : Type 0 where
  pub id : Text
  pub external_id : Text
  pub provider : Text
  pub email : Option Text
  pub display_name : Option Text
  pub metadata : List (Text × Value)
  pub claims : List (Text × Value)
  pub status : UserStatus
  pub version : ℕ
  pub created_at : ℕ
  pub updated_at : ℕ

abbrev pub max_admin_page_size : ℕ
max_admin_page_size = 200

abbrev pub default_admin_page_size : ℕ
default_admin_page_size = 50

unfoldable pub clamp_admin_page_limit : ℕ → Result ℕ
clamp_admin_page_limit limit =
    if limit == 0
    then err (invalid_request (codes "limit must be at least 1 and at most 200"))
    else ok (min limit max_admin_page_size)

pub record NewUser : Type 0 where
  pub external_id : Text
  pub provider : Text
  pub email : Option Text
  pub display_name : Option Text

pub record UserPatch : Type 0 where
  pub email : Option Text
  pub display_name : Option Text
  pub metadata : Option (List (Text × Value))
  pub claims : Option (List (Text × Value))
  pub status : Option UserStatus

pub record UserPage : Type 0 where
  pub users : List User
  pub next_cursor : Option Text

-- `==` and `{:?}` of a status.
unfoldable pub status_eq : UserStatus → UserStatus → Bool
status_eq active active = true
status_eq suspended suspended = true
status_eq deleted deleted = true
status_eq _ _ = false

unfoldable pub status_text : UserStatus → Text
status_text active = codes "Active"
status_text suspended = codes "Suspended"
status_text deleted = codes "Deleted"
