-- ===== src/Domain/Actor.antt =====
-- packages/domain/src/request-actor.ts, and the policy of
-- packages/application/src/authorization/membership-policy.ts.
pub mod Policy
use bug_free_fiesta.Prelude.{
  any, str_eq, ℕ, ◌==◌, not, String, Option, none, some, Bool, true, false, List, [], ◌∷◌,
}
use bug_free_fiesta.Domain.Statuses.{AuditActorType}
use bug_free_fiesta.Domain.Errors.{
  throw_if, guard, ◌>>◌, err, authorization_error, Result, ApplicationError,
}
use bug_free_fiesta.Domain.Text.{require_organization_id}

pub data MembershipRole : Type 0 where
  owner admin member read_only : MembershipRole

pub record AccountUserActor : Type 0 where
  pub user_id : String
  pub membership_id : String
  pub organization_id : String
  pub role : MembershipRole

pub record SignerActor : Type 0 where
  pub organization_id : String
  pub document_id : String
  pub signer_id : String
  pub session_id : String

pub record WorkerActor : Type 0 where
  pub job_id : String
  pub organization_id : String

pub data RequestActor : Type 0 where
  account_user : AccountUserActor → RequestActor
  signer : SignerActor → RequestActor
  worker : WorkerActor → RequestActor
  system : RequestActor

-- `organizationContextFromActor(actor).organizationId`
unfoldable pub organization_of_actor : RequestActor → Result String
organization_of_actor (account_user actor) = require_organization_id actor.organization_id
organization_of_actor (signer actor) = require_organization_id actor.organization_id
organization_of_actor (worker actor) = require_organization_id actor.organization_id
organization_of_actor system =
    err (authorization_error (("reason", "system_requires_explicit_organization") ∷ []))

abbrev pub actor_id : RequestActor → String
actor_id (account_user actor) = actor.user_id
actor_id (signer actor) = actor.signer_id
actor_id (worker actor) = actor.job_id
actor_id system = "system"

abbrev pub actor_type : RequestActor → AuditActorType
actor_type (account_user actor) = AuditActorType.account_user
actor_type (signer actor) = AuditActorType.signer
actor_type (worker actor) = AuditActorType.worker
actor_type system = AuditActorType.system

pub data AuthorizationAction : Type 0 where
  membership_read document_read document_write document_send : AuthorizationAction
  document_void document_download_artifact signing_session_act : AuthorizationAction
  job_process audit_verify : AuthorizationAction

abbrev action_index : AuthorizationAction → ℕ
action_index membership_read = 0
action_index document_read = 1
action_index document_write = 2
action_index document_send = 3
action_index document_void = 4
action_index document_download_artifact = 5
action_index signing_session_act = 6
action_index job_process = 7
action_index audit_verify = 8

abbrev pub action_eq : AuthorizationAction → AuthorizationAction → Bool
action_eq a b = action_index a == action_index b

pub record AuthorizationResource : Type 0 where
  pub organization_id : String
  pub document_id : Option String
  pub signer_id : Option String

-- `ACCOUNT_USER_ACTIONS`
abbrev pub account_user_actions : MembershipRole → List AuthorizationAction
account_user_actions owner =
    membership_read ∷ document_read ∷ document_write ∷ document_send ∷ document_void
    ∷ document_download_artifact ∷ audit_verify ∷ []
account_user_actions admin =
    membership_read ∷ document_read ∷ document_write ∷ document_send ∷ document_void
    ∷ document_download_artifact ∷ audit_verify ∷ []
account_user_actions member = membership_read ∷ document_read ∷ document_write ∷ document_send ∷ []
account_user_actions read_only = membership_read ∷ document_read ∷ []

abbrev action_text : AuthorizationAction → String
action_text membership_read = "organization.membership.read"
action_text document_read = "document.read"
action_text document_write = "document.write"
action_text document_send = "document.send"
action_text document_void = "document.void"
action_text document_download_artifact = "document.download_artifact"
action_text signing_session_act = "signing.session.act"
action_text job_process = "job.process"
action_text audit_verify = "audit.verify"

abbrev role_text : MembershipRole → String
role_text owner = "owner"
role_text admin = "admin"
role_text member = "member"
role_text read_only = "read_only"

abbrev deny : String → AuthorizationAction → ApplicationError
deny reason action = authorization_error (("reason", reason) ∷ ("action", action_text action) ∷ [])

abbrev deny_role : AuthorizationAction → MembershipRole → ApplicationError
deny_role action role =
    authorization_error
      (("reason", "role_denied") ∷ ("action", action_text action) ∷ ("role", role_text role) ∷ [])

-- `resource.documentId !== undefined && resource.documentId !== actor.documentId`
abbrev names_another : Option String → String → Bool
names_another none id = false
names_another (some given) id = not (str_eq given id)

unfoldable pub assert_allowed :
    RequestActor → AuthorizationAction → AuthorizationResource → Result (Unit {0})
assert_allowed (account_user actor) action resource = do
  guard (str_eq actor.organization_id resource.organization_id)
      (deny "organization_mismatch" action)
  guard (any (action_eq action) (account_user_actions actor.role)) (deny_role action actor.role)
assert_allowed (signer actor) action resource = do
  guard (action_eq action signing_session_act) (deny "signer_action_denied" action)
  guard (str_eq actor.organization_id resource.organization_id)
      (deny "organization_mismatch" action)
  throw_if (names_another resource.document_id actor.document_id) (deny "document_mismatch" action)
  throw_if (names_another resource.signer_id actor.signer_id) (deny "signer_mismatch" action)
assert_allowed (worker actor) action resource = do
  guard (action_eq action job_process) (deny "worker_action_denied" action)
  guard (str_eq actor.organization_id resource.organization_id)
      (deny "organization_mismatch" action)
assert_allowed system action resource =
    guard (action_eq action job_process) (deny "system_action_denied" action)
