-- ===== src/Service/UserAdmin/Claims.antt =====
-- crates/core/src/service/user_admin.rs: the custom claims of a user, read and written by operators.
use oidc_exchange.Base.{
  ◌≡◌, refl, false, none, some, List, [], ◌∷◌, Text, codes, text_eq_iff, get, Distinct, Bool-cases,
  Option-cases, inl, inr, arith,
}
use oidc_exchange.Error.{ok}
use oidc_exchange.Domain.User.{User}
use oidc_exchange.Domain.Operator.{OperatorPrincipal}
use oidc_exchange.Domain.Audit
use oidc_exchange.Domain.Audit.{Value, text}
use oidc_exchange.Token.Claims.{find_reserved_claim_key, is_reserved_claim, lesser, insert}
use oidc_exchange.Token.Claims.Reserved.{get-insert, or_else}
use oidc_exchange.Service.{SessionRepository, AppService, Action, pure, and_then, on_store}
use oidc_exchange.Service.UserAdmin.{
  UserRepository, UserSync, existing_user, ensure_no_reserved_claims, claims_only, merged_claims,
  emit_admin_mutation,
}

module _ {S : Type 0} (sessions : SessionRepository S) (users : UserRepository S)
    (sync : UserSync S) (app : AppService) (debug : Text → Text) (digest : Text → Text) where
  unfoldable pub admin_get_claims : Text → Action S (List (Text × Value))
  admin_get_claims user_id =
      and_then (existing_user sessions users sync app debug digest user_id)
        (λ user. pure (ok user.claims))

  unfoldable pub emit_claims_audit_event : OperatorPrincipal → User → Text → Action S (Unit {0})
  emit_claims_audit_event operator user operation =
      emit_admin_mutation sessions users sync app debug digest operator Audit.updated user
        ((codes "operation", text operation) ∷ [])

  -- The write of the claims, and its record.
  unfoldable pub write_claims :
      OperatorPrincipal → Text → User → Text → List (Text × Value) → Action S (Unit {0})
  write_claims operator user_id user operation claims =
      and_then (on_store (users.update_user user_id (claims_only claims)))
        (λ _. emit_claims_audit_event operator user operation)

  unfoldable pub admin_set_claims :
      OperatorPrincipal → Text → List (Text × Value) → Action S (Unit {0})
  admin_set_claims operator user_id claims =
      and_then (pure (ensure_no_reserved_claims debug claims)) (λ _.
        and_then (existing_user sessions users sync app debug digest user_id)
          (λ user. write_claims operator user_id user (codes "set_claims") claims))

  unfoldable pub admin_merge_claims :
      OperatorPrincipal → Text → List (Text × Value) → Action S (Unit {0})
  admin_merge_claims operator user_id claims =
      and_then (pure (ensure_no_reserved_claims debug claims)) (λ _.
        and_then (existing_user sessions users sync app debug digest user_id) (λ user.
          write_claims operator user_id user (codes "merge_claims")
            (merged_claims user.claims claims)))

  unfoldable pub admin_clear_claims : OperatorPrincipal → Text → Action S (Unit {0})
  admin_clear_claims operator user_id =
      and_then (existing_user sessions users sync app debug digest user_id)
        (λ user. write_claims operator user_id user (codes "clear_claims") [])

-- A merge reads back the new entries over the old ones.
pub get-merged_claims :
    (k : Text) (merged m : List (Text × Value))
    → Distinct m
    → get k (merged_claims merged m) ≡ or_else (get k m) (get k merged)
unfolding merged_claims get
get-merged_claims k merged [] d = refl
get-merged_claims k merged ((j, v) ∷ m) d = ground (
  arith,
  d.0,
  get-merged_claims k (insert j v merged) m d.1,
  get-insert j k v merged,
  text_eq_iff k j,
)

-- Claims pass exactly when no key of them is reserved.
find_reserved-none :
    (m : List (Text × Value)) (k : Text) (v : Value)
    → find_reserved_claim_key m ≡ none
    → get k m ≡ some v
    → is_reserved_claim k ≡ false
unfolding find_reserved_claim_key lesser get
find_reserved-none [] k v n g = cc
find_reserved-none ((j, w) ∷ m) k v n g = elim (Option-cases (find_reserved_claim_key m)) [
  | inl e ↦ ground (arith, n, g, e, text_eq_iff k j, find_reserved-none m k v e)
  | inr e ↦ absurd (ground (arith, n, e.1, Bool-cases (is_reserved_claim j)))
]

pub ensure_no_reserved_claims-ok :
    (debug : Text → Text) (m : List (Text × Value)) (k : Text) (v : Value)
    → ensure_no_reserved_claims debug m ≡ ok tt
    → get k m ≡ some v
    → is_reserved_claim k ≡ false
unfolding ensure_no_reserved_claims
ensure_no_reserved_claims-ok debug m k v e g = elim (Option-cases (find_reserved_claim_key m)) [
  | inl n ↦ find_reserved-none m k v n g
  | inr n ↦ absurd (ground (arith, e, n.1))
]
