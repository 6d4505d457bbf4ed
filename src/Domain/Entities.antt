-- ===== src/Domain/Entities.antt =====
-- packages/domain/src/entities.ts: the rows. An id, a hash and a key are texts, a date is its
-- `getTime()` in milliseconds since the epoch, a bigint and a whole number are natural numbers, and a
-- value that may be null is an `Option`. The coordinates of a field are counted in billionths of a
-- page.
use bug_free_fiesta.Prelude.{ℕ, String, Option, Bool}
use bug_free_fiesta.Prelude.Int.{ℤ}
use bug_free_fiesta.Domain.Json.{Props}
use bug_free_fiesta.Domain.Statuses.{
  DocumentState, SignerStatus, SigningSessionStatus, SignatureFieldType, SigningMode,
  DocumentInspectionStatus, DocumentRevisionKind, AuditActorType, AuditEventType, OutboxStatus,
  BackgroundJobStatus,
}

abbrev pub Payload : Type 0
Payload = Props

pub record Document : Type 0 where
  pub id : String
  pub organization_id : String
  pub owner_membership_id : String
  pub title : String
  pub state : DocumentState
  pub signing_mode : SigningMode
  pub inspection_status : DocumentInspectionStatus
  pub source_display_name : Option String
  pub expires_at : Option ℕ
  pub current_revision_id : Option String
  pub signing_revision_id : Option String
  pub version : ℕ
  pub lease_owner : Option String
  pub lease_until : Option ℕ
  pub finalization_attempt_count : ℕ
  pub created_at : ℕ
  pub updated_at : ℕ

pub record DocumentRevision : Type 0 where
  pub id : String
  pub organization_id : String
  pub document_id : String
  pub kind : DocumentRevisionKind
  pub object_key : String
  pub content_type : String
  pub size_bytes : ℕ
  pub sha256_digest : String
  pub display_name : String
  pub page_count : ℕ
  pub created_at : ℕ

pub record Signer : Type 0 where
  pub id : String
  pub organization_id : String
  pub document_id : String
  pub account_user_id : Option String
  pub routing_order : ℕ
  pub status : SignerStatus
  pub email : Option String
  pub display_name : String
  pub version : ℕ
  pub completed_at : Option ℕ
  pub declined_at : Option ℕ
  pub created_at : ℕ
  pub updated_at : ℕ

pub record SigningSession : Type 0 where
  pub id : String
  pub organization_id : String
  pub document_id : String
  pub signer_id : String
  pub token_hash : String
  pub csrf_token_hash : Option String
  pub status : SigningSessionStatus
  pub expires_at : ℕ
  pub consumed_at : Option ℕ
  pub completed_at : Option ℕ
  pub revoked_at : Option ℕ
  pub presentation_attempt_count : ℕ
  pub failed_presentation_count : ℕ
  pub last_presented_at : Option ℕ
  pub request_id : Option String
  pub version : ℕ
  pub created_at : ℕ
  pub updated_at : ℕ

pub record SignatureField : Type 0 where
  pub id : String
  pub organization_id : String
  pub document_id : String
  pub signer_id : String
  pub type : SignatureFieldType
  pub page_number : ℕ
  pub x : ℤ
  pub y : ℤ
  pub width : ℤ
  pub height : ℤ
  pub required : Bool
  pub completed_at : Option ℕ
  pub completion_object_key : Option String
  pub completion_content_type : Option String
  pub completion_size_bytes : Option ℕ
  pub completion_sha256_digest : Option String
  pub flattened_revision_id : Option String
  pub created_at : ℕ
  pub updated_at : ℕ

pub record ConsentRecord : Type 0 where
  pub id : String
  pub organization_id : String
  pub document_id : String
  pub signer_id : String
  pub session_id : String
  pub consent_copy_id : String
  pub accepted_at : ℕ
  pub request_id : Option String
  pub untrusted_client_ip : Option String
  pub untrusted_user_agent : Option String
  pub created_at : ℕ

pub record AuditEvent : Type 0 where
  pub id : String
  pub organization_id : String
  pub document_id : String
  pub sequence : ℕ
  pub type : AuditEventType
  pub actor_type : AuditActorType
  pub actor_id : String
  pub occurred_at : ℕ
  pub payload : Payload
  pub previous_event_hash : String
  pub event_hash : String
  pub request_id : Option String
  pub chain_version : ℕ
  pub created_at : ℕ

pub record OutboxEvent : Type 0 where
  pub id : String
  pub organization_id : String
  pub document_id : Option String
  pub type : String
  pub status : OutboxStatus
  pub payload : Payload
  pub request_id : Option String
  pub attempt_count : ℕ
  pub lease_owner : Option String
  pub lease_until : Option ℕ
  pub available_at : ℕ
  pub processed_at : Option ℕ
  pub last_error_code : Option String
  pub created_at : ℕ
  pub updated_at : ℕ

pub record BackgroundJob : Type 0 where
  pub id : String
  pub organization_id : String
  pub document_id : Option String
  pub outbox_event_id : Option String
  pub type : String
  pub status : BackgroundJobStatus
  pub attempt_count : ℕ
  pub max_attempts : ℕ
  pub lease_owner : Option String
  pub lease_until : Option ℕ
  pub available_at : ℕ
  pub last_error_code : Option String
  pub request_id : Option String
  pub version : ℕ
  pub created_at : ℕ
  pub updated_at : ℕ

pub record IdempotencyRecord : Type 0 where
  pub id : String
  pub organization_id : String
  pub principal_type : AuditActorType
  pub principal_id : String
  pub route : String
  pub key : String
  pub request_hash : String
  pub request_id : Option String
  pub response_status : Option ℕ
  pub response_body : Option Payload
  pub expires_at : ℕ
  pub created_at : ℕ
  pub updated_at : ℕ
