-- ===== src/Domain/Statuses.antt =====
-- packages/domain/src/entities.ts: the enumerations, in the order of the source's arrays. Two values
-- are compared by their place in the array.
use bug_free_fiesta.Prelude.{String, ℕ, Bool, ◌==◌}

pub data DocumentState : Type 0 where
  draft prepared sent in_progress completed : DocumentState
  finalizing finalized voided expired declined : DocumentState
  finalization_failed : DocumentState

abbrev document_state_index : DocumentState → ℕ
document_state_index DocumentState.draft = 0
document_state_index DocumentState.prepared = 1
document_state_index DocumentState.sent = 2
document_state_index DocumentState.in_progress = 3
document_state_index DocumentState.completed = 4
document_state_index DocumentState.finalizing = 5
document_state_index DocumentState.finalized = 6
document_state_index DocumentState.voided = 7
document_state_index DocumentState.expired = 8
document_state_index DocumentState.declined = 9
document_state_index DocumentState.finalization_failed = 10

abbrev pub document_state_eq : DocumentState → DocumentState → Bool
document_state_eq a b = document_state_index a == document_state_index b

-- A state as the source writes it, in `DOCUMENT_STATES`.
abbrev pub document_state_text : DocumentState → String
document_state_text DocumentState.draft = "draft"
document_state_text DocumentState.prepared = "prepared"
document_state_text DocumentState.sent = "sent"
document_state_text DocumentState.in_progress = "in_progress"
document_state_text DocumentState.completed = "completed"
document_state_text DocumentState.finalizing = "finalizing"
document_state_text DocumentState.finalized = "finalized"
document_state_text DocumentState.voided = "voided"
document_state_text DocumentState.expired = "expired"
document_state_text DocumentState.declined = "declined"
document_state_text DocumentState.finalization_failed = "finalization_failed"

pub data SignerStatus : Type 0 where
  pending signed declined : SignerStatus

abbrev signer_status_index : SignerStatus → ℕ
signer_status_index SignerStatus.pending = 0
signer_status_index SignerStatus.signed = 1
signer_status_index SignerStatus.declined = 2

abbrev pub signer_status_eq : SignerStatus → SignerStatus → Bool
signer_status_eq a b = signer_status_index a == signer_status_index b

pub data SigningSessionStatus : Type 0 where
  issued active completed expired revoked : SigningSessionStatus

abbrev signing_session_status_index : SigningSessionStatus → ℕ
signing_session_status_index SigningSessionStatus.issued = 0
signing_session_status_index SigningSessionStatus.active = 1
signing_session_status_index SigningSessionStatus.completed = 2
signing_session_status_index SigningSessionStatus.expired = 3
signing_session_status_index SigningSessionStatus.revoked = 4

abbrev pub signing_session_status_eq : SigningSessionStatus → SigningSessionStatus → Bool
signing_session_status_eq a b = signing_session_status_index a == signing_session_status_index b

pub data SignatureFieldType : Type 0 where
  signature initials date_signed signer_name : SignatureFieldType

abbrev signature_field_type_index : SignatureFieldType → ℕ
signature_field_type_index SignatureFieldType.signature = 0
signature_field_type_index SignatureFieldType.initials = 1
signature_field_type_index SignatureFieldType.date_signed = 2
signature_field_type_index SignatureFieldType.signer_name = 3

abbrev pub signature_field_type_eq : SignatureFieldType → SignatureFieldType → Bool
signature_field_type_eq a b = signature_field_type_index a == signature_field_type_index b

pub data SigningMode : Type 0 where
  ordered parallel : SigningMode

pub data FieldOverlapPolicy : Type 0 where
  prohibit allow : FieldOverlapPolicy

pub data DocumentRevisionKind : Type 0 where
  source intermediate : DocumentRevisionKind

pub data DocumentInspectionStatus : Type 0 where
  pending accepted rejected : DocumentInspectionStatus

pub data AuditActorType : Type 0 where
  account_user signer worker system : AuditActorType

pub data AuditEventType : Type 0 where
  document_created revision_added fields_updated signers_updated document_sent : AuditEventType
  session_issued session_revoked session_exchanged document_viewed consent_recorded : AuditEventType
  signer_signed signer_declined document_voided document_expired finalization_started :
      AuditEventType
  document_finalized finalization_failed artifact_downloaded inspection_accepted
        inspection_rejected :
      AuditEventType
  upload_abandoned : AuditEventType

pub data OutboxStatus : Type 0 where
  pending processing processed failed : OutboxStatus

abbrev outbox_status_index : OutboxStatus → ℕ
outbox_status_index OutboxStatus.pending = 0
outbox_status_index OutboxStatus.processing = 1
outbox_status_index OutboxStatus.processed = 2
outbox_status_index OutboxStatus.failed = 3

abbrev pub outbox_status_eq : OutboxStatus → OutboxStatus → Bool
outbox_status_eq a b = outbox_status_index a == outbox_status_index b

pub data BackgroundJobStatus : Type 0 where
  pending leased succeeded failed cancelled : BackgroundJobStatus

abbrev background_job_status_index : BackgroundJobStatus → ℕ
background_job_status_index BackgroundJobStatus.pending = 0
background_job_status_index BackgroundJobStatus.leased = 1
background_job_status_index BackgroundJobStatus.succeeded = 2
background_job_status_index BackgroundJobStatus.failed = 3
background_job_status_index BackgroundJobStatus.cancelled = 4

abbrev pub background_job_status_eq : BackgroundJobStatus → BackgroundJobStatus → Bool
background_job_status_eq a b = background_job_status_index a == background_job_status_index b

pub data JobErrorCategory : Type 0 where
  retryable non_retryable : JobErrorCategory

abbrev pub signing_session_status_text : SigningSessionStatus → String
signing_session_status_text SigningSessionStatus.issued = "issued"
signing_session_status_text SigningSessionStatus.active = "active"
signing_session_status_text SigningSessionStatus.completed = "completed"
signing_session_status_text SigningSessionStatus.expired = "expired"
signing_session_status_text SigningSessionStatus.revoked = "revoked"

abbrev pub inspection_status_text : DocumentInspectionStatus → String
inspection_status_text DocumentInspectionStatus.pending = "pending"
inspection_status_text DocumentInspectionStatus.accepted = "accepted"
inspection_status_text DocumentInspectionStatus.rejected = "rejected"
