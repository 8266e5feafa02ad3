-- ===== src/Domain/Audit.antt =====
-- crates/core/src/domain/audit.rs: audit events and the closed set of security outcomes. An event
-- stands without its id and timestamp, which are fresh.
use oidc_exchange.Base.{ℕ, Bool, Option, none, some, List, [], Text}
use oidc_exchange.Domain.Operator.{OperatorPrincipal}

pub data AuditSeverity : Type 0 where
  emergency alert critical error warning notice info debug : AuditSeverity

-- `as u8`
unfoldable pub rank : AuditSeverity → ℕ
rank emergency = 0
rank alert = 1
rank critical = 2
rank error = 3
rank warning = 4
rank notice = 5
rank info = 6
rank debug = 7

pub data AuditEventType : Type 0 where
  token_exchange token_refresh token_revocation session_revoked all_sessions_revoked user_created
        user_updated user_suspended user_deleted validation_failed registration_denied
        provider_error unauthorized throttle_exceeded refresh_token_reuse missing_credential
        invalid_credential not_configured store_error :
      AuditEventType

pub data AuditFailure : Type 0 where
  authentication_failed registration_denied principal_suspended provider_rejected throttle_exceeded
        refresh_token_reuse missing_credential invalid_credential not_configured store_error :
      AuditFailure

pub data AuditOutcome : Type 0 where
  success : AuditOutcome
  failure : AuditFailure → AuditOutcome

pub data ClientAddrSource : Type 0 where
  peer forwarded reported asserted unknown : ClientAddrSource

pub data ClientAddr : Type 0 where
  peer forwarded reported asserted : Text → ClientAddr
  unknown : ClientAddr

unfoldable pub source : ClientAddr → ClientAddrSource
source (peer _) = peer
source (forwarded _) = forwarded
source (reported _) = reported
source (asserted _) = asserted
source unknown = unknown

unfoldable pub audit_address : ClientAddr → Option Text
audit_address (peer a) = some a
audit_address (forwarded a) = some a
audit_address (reported a) = some a
audit_address (asserted a) = some a
audit_address unknown = none

pub data AuthenticationKind : Type 0 where
  exchange refresh : AuthenticationKind

pub data AdminMutationKind : Type 0 where
  created updated suspended deleted session_revoked sessions_revoked : AdminMutationKind

pub data OperatorAuthFailureReason : Type 0 where
  missing_credential invalid_credential not_configured : OperatorAuthFailureReason

pub data SecurityEvent : Type 0 where
  authentication_succeeded : AuthenticationKind → SecurityEvent
  authentication_failed registration_denied principal_suspended principal_created session_revoked
        sessions_revoked provider_rejected refresh_token_reuse throttle_exceeded :
      SecurityEvent
  admin_mutation : AdminMutationKind → SecurityEvent
  operator_authentication_failed : OperatorAuthFailureReason → SecurityEvent

unfoldable pub severity : SecurityEvent → AuditSeverity
severity (authentication_succeeded _) = info
severity session_revoked = info
severity principal_created = notice
severity sessions_revoked = notice
severity (admin_mutation _) = notice
severity _ = warning

unfoldable pub event_type : SecurityEvent → AuditEventType
event_type (authentication_succeeded exchange) = token_exchange
event_type (authentication_succeeded refresh) = token_refresh
event_type authentication_failed = validation_failed
event_type registration_denied = registration_denied
event_type principal_suspended = user_suspended
event_type principal_created = user_created
event_type session_revoked = token_revocation
event_type sessions_revoked = all_sessions_revoked
event_type provider_rejected = provider_error
event_type (admin_mutation created) = user_created
event_type (admin_mutation updated) = user_updated
event_type (admin_mutation suspended) = user_suspended
event_type (admin_mutation deleted) = user_deleted
event_type (admin_mutation session_revoked) = session_revoked
event_type (admin_mutation sessions_revoked) = all_sessions_revoked
event_type (operator_authentication_failed _) = unauthorized
event_type refresh_token_reuse = refresh_token_reuse
event_type throttle_exceeded = throttle_exceeded

-- What `serde_json::Value` holds here.
pub data Value : Type 0 where
  text : Text → Value
  number : ℕ → Value
  flag : Bool → Value

pub record AuditEvent : Type 0 where
  pub severity : AuditSeverity
  pub event_type : AuditEventType
  pub actor : Option Text
  pub operator : Option OperatorPrincipal
  pub provider : Option Text
  pub ip_address : Option Text
  pub ip_address_source : ClientAddrSource
  pub user_agent : Option Text
  pub detail : List (Text × Value)
  pub outcome : AuditOutcome

-- `create_audit_event` of crates/core/src/service/mod.rs.
unfoldable pub create_audit_event :
    AuditEventType
    → AuditSeverity
    → AuditOutcome
    → Option Text
    → Option Text
    → ClientAddr
    → Option Text
    → AuditEvent
create_audit_event event_type' severity' outcome actor provider client_addr user_agent = record {
  severity = severity';
  event_type = event_type';
  actor = actor;
  operator = none;
  provider = provider;
  ip_address = audit_address client_addr;
  ip_address_source = source client_addr;
  user_agent = user_agent;
  detail = [];
  outcome = outcome;
}

unfoldable pub into_audit_event :
    SecurityEvent → AuditOutcome → Option Text → Option Text → ClientAddr → Option Text → AuditEvent
into_audit_event event outcome actor provider client_addr user_agent =
    create_audit_event (event_type event) (severity event) outcome actor provider client_addr
      user_agent
