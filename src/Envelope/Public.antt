-- ===== src/Envelope/Public.antt =====
-- packages/application/src/documents/public-document.ts: what a command answers of an envelope.
use mathlib.Core.Option
use bug_free_fiesta.Prelude.{map, Bool, List, Option, ℕ, String}
use bug_free_fiesta.Domain.Entities.{DocumentRevision, Payload, Document, Signer, SignatureField}
use bug_free_fiesta.Domain.Statuses.{
  DocumentInspectionStatus, SignerStatus, SigningMode, SignatureFieldType, DocumentState,
}
use bug_free_fiesta.Prelude.Int.{ℤ}
use bug_free_fiesta.Domain.Lifecycle.{is_available_for_signing}

pub record PublicDocumentRevision : Type 0 where
  pub revision_id : String
  pub content_type : String
  pub size_bytes : ℕ
  pub sha256_digest : String
  pub display_name : String
  pub page_count : ℕ

pub record PublicSigner : Type 0 where
  pub signer_id : String
  pub email : Option String
  pub display_name : String
  pub routing_order : ℕ
  pub status : SignerStatus

pub record PublicSignatureField : Type 0 where
  pub field_id : String
  pub signer_id : String
  pub type : SignatureFieldType
  pub page_number : ℕ
  pub x : ℤ
  pub y : ℤ
  pub width : ℤ
  pub height : ℤ
  pub required : Bool

pub record PublicDocument : Type 0 where
  pub document_id : String
  pub title : String
  pub state : DocumentState
  pub signing_mode : SigningMode
  pub inspection_status : DocumentInspectionStatus
  pub display_name : Option String
  pub available_for_signing : Bool
  pub current_revision : Option PublicDocumentRevision
  pub signers : List PublicSigner
  pub fields : List PublicSignatureField

abbrev pub to_public_signer : Signer → PublicSigner
to_public_signer signer = record {
  signer_id = signer.id;
  email = signer.email;
  display_name = signer.display_name;
  routing_order = signer.routing_order;
  status = signer.status;
}

abbrev pub to_public_signature_field : SignatureField → PublicSignatureField
to_public_signature_field field = record {
  field_id = field.id;
  signer_id = field.signer_id;
  type = field.type;
  page_number = field.page_number;
  x = field.x;
  y = field.y;
  width = field.width;
  height = field.height;
  required = field.required;
}

abbrev to_public_revision : DocumentRevision → PublicDocumentRevision
to_public_revision revision = record {
  revision_id = revision.id;
  content_type = revision.content_type;
  size_bytes = revision.size_bytes;
  sha256_digest = revision.sha256_digest;
  display_name = revision.display_name;
  page_count = revision.page_count;
}

unfoldable pub to_public_document :
    Document → Option DocumentRevision → List Signer → List SignatureField → PublicDocument
to_public_document document revision signers fields = record {
  document_id = document.id;
  title = document.title;
  state = document.state;
  signing_mode = document.signing_mode;
  inspection_status = document.inspection_status;
  display_name = document.source_display_name;
  available_for_signing = is_available_for_signing document;
  current_revision = Option.map to_public_revision revision;
  signers = map to_public_signer signers;
  fields = map to_public_signature_field fields;
}

-- How a body is stored and read again: the JSON column of the record, and `safeParse` of
-- `publicDocumentSchema`, which is `none` where it refuses.
pub record BodyFormat : Type 0 where
  pub stored_body : PublicDocument → Payload
  pub safe_parse : Payload → Option PublicDocument
