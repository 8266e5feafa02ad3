-- ===== src/Service/UserAdmin/Calls.antt =====
-- crates/core/src/service/user_admin.rs: the mutations of the admin plane, one after the other.
use oidc_exchange.Base.{ℕ, List, [], ◌∷◌, Text}
use oidc_exchange.Error.{ok}
use oidc_exchange.Domain.User.{NewUser, UserPatch}
use oidc_exchange.Domain.Operator.{OperatorPrincipal}
use oidc_exchange.Domain.Audit.{Value}
use oidc_exchange.Service.{SessionRepository, AppService, World, Action, pure, and_then}
use oidc_exchange.Service.UserAdmin.{
  UserRepository, UserSync, admin_create_user, admin_update_user, admin_delete_user,
  admin_revoke_user_session, admin_revoke_user_sessions,
}
use oidc_exchange.Service.UserAdmin.Claims.{
  admin_set_claims, admin_merge_claims, admin_clear_claims,
}

pub data Mutation : Type 0 where
  create : NewUser → Mutation
  update : Text → UserPatch → Mutation
  delete : Text → Mutation
  revoke_one : Text → Text → ℕ → Mutation
  revoke_all : Text → Mutation
  set_claims merge_claims : Text → List (Text × Value) → Mutation
  clear_claims : Text → Mutation

module _ {S : Type 0} (sessions : SessionRepository S) (users : UserRepository S)
    (sync : UserSync S) (app : AppService) (debug : Text → Text) (digest : Text → Text) where
  -- A mutation by an operator, without its answer.
  abbrev pub answered : {A : Type 0} → Action S A → Action S (Unit {0})
  answered m = and_then m (λ _. pure (ok tt))

  abbrev pub perform : OperatorPrincipal → Mutation → Action S (Unit {0})
  perform o (create u) = answered (admin_create_user sessions users sync app debug digest o u)
  perform o (update id p) = answered (admin_update_user sessions users sync app debug digest o id p)
  perform o (delete id) = answered (admin_delete_user sessions users sync app debug digest o id)
  perform o (revoke_one id session now) =
      answered (admin_revoke_user_session sessions users sync app debug digest o id session now)
  perform o (revoke_all id) =
      answered (admin_revoke_user_sessions sessions users sync app debug digest o id)
  perform o (set_claims id c) =
      answered (admin_set_claims sessions users sync app debug digest o id c)
  perform o (merge_claims id c) =
      answered (admin_merge_claims sessions users sync app debug digest o id c)
  perform o (clear_claims id) =
      answered (admin_clear_claims sessions users sync app debug digest o id)

  -- Mutations by any operators, in a row.
  abbrev pub performed : List (OperatorPrincipal × Mutation) → World S → World S
  performed [] w = w
  performed ((o, m) ∷ rest) w = performed rest (perform o m w).1
