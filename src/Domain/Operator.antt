-- ===== src/Domain/Operator.antt =====
-- crates/core/src/domain/operator.rs: who acts on the admin plane.
use oidc_exchange.Base.{Bool, not, ◌&&◌, Text, codes, text_eq, is_empty}

pub data OperatorAuthMechanism : Type 0 where
  mutual_tls operator_token shared_secret : OperatorAuthMechanism

abbrev pub unattributed_operator_id : Text
unattributed_operator_id = codes "unattributed"

pub record OperatorPrincipal : Type 0 where
  pub id : Text
  pub mechanism : OperatorAuthMechanism

abbrev pub unattributed : OperatorPrincipal
unattributed = record { id = unattributed_operator_id; mechanism = shared_secret }

-- `assert_invariants`: the reserved id belongs to the shared secret, and to nothing else.
unfoldable pub pairs : OperatorAuthMechanism → Text → Bool
pairs shared_secret id = text_eq id unattributed_operator_id
pairs mutual_tls id = not (text_eq id unattributed_operator_id)
pairs operator_token id = not (text_eq id unattributed_operator_id)

unfoldable pub holds_invariants : OperatorPrincipal → Bool
holds_invariants operator = not (is_empty operator.id) && pairs operator.mechanism operator.id
