-- ===== src/Examples/Commands.antt =====
-- Commands of the sender on the example envelope.
use bug_free_fiesta.Domain.SigningMode.{set_of, includes, consecutive_from, assert_signer_routing}
use bug_free_fiesta.Store.Signers.{replace_all_fields, signers_of_document, fields_of_document}
use bug_free_fiesta.Store.Sessions.{
  update_session, sessions_of_document, rotate_row, revoke_row, present_row, has_session_key,
  expire_row, complete_row,
}
use bug_free_fiesta.Store.Sessions.Moves.{act}
use bug_free_fiesta.Domain.Payload.{
  normalize_key, is_forbidden_key, check_props, assert_approved_audit_payload,
}
use bug_free_fiesta.Domain.Lifecycle.{
  assert_preparation_unlocked, is_available_for_signing, can_transition_document,
  assert_document_transition,
}
use bug_free_fiesta.Domain.Canonical.{
  to_canonical_audit_event, key_before, compute_audit_event_hash, canonicalize,
  audit_chain_schema_version,
}
use bug_free_fiesta.Store.Documents.{
  set_preparation_state, mark_voided, has_document_key, find_revision, bump_document, bump_current,
  find_document,
}
use bug_free_fiesta.Store.Rows.{update_row, replace_row, find_row}
use bug_free_fiesta.Store.Ledger.{
  latest_from, latest, in_scope, in_chain, find_latest, events_of_document, complete_idempotency,
  append_audit, create_idempotency, find_idempotency,
}
use bug_free_fiesta.Envelope.Requests.{
  trim, stable_json, insert_key, begin_from, replay_or_begin_idempotency, require_idempotency_key,
}
use bug_free_fiesta.Domain.Text.{
  utf16_length, same_text, require_opaque_id, matches, is_space, is_opaque_id, has_prefix, has_part,
  require_organization_id,
}
use bug_free_fiesta.Program.{
  on_fields, write_session, throw, on_sessions, on_documents, on_audit_log, append_event, require,
  pure, on_idempotency, next_id, gets, now_utc, lift, ◌>>=◌, Repositories, left, done,
}
use bug_free_fiesta.Prelude.{
  ◌^◌, ◌*◌, All, ◌↔◌, true, map, ℕ, List, ◌⊎◌, refl, ◌+◌, none, ◌≡◌, some, [], ◌∷◌, String,
}
use bug_free_fiesta.Examples.Parties.{lease, shop, runtime, tenant, tenant_session}
use bug_free_fiesta.Domain.Entities.{SignatureField, DocumentRevision, Document}
use bug_free_fiesta.Envelope.Void.{
  store_void, revoke_listed, replay_void_response, answer_voided, void_begun, void_document,
  VoidDocumentInput,
}
use bug_free_fiesta.Envelope.Public.{to_public_document, PublicDocument, BodyFormat}
use bug_free_fiesta.Domain.Actor.{
  AuthorizationAction, RequestActor, assert_allowed, organization_of_actor, MembershipRole,
  AccountUserActor,
}
use bug_free_fiesta.Domain.Json.{end}
use bug_free_fiesta.Domain.Statuses.{
  DocumentRevisionKind, FieldOverlapPolicy, SignatureFieldType, DocumentState,
}
use bug_free_fiesta.Envelope.Void.Replay.{void_document-replays}
use bug_free_fiesta.Domain.Errors.{ok}
use bug_free_fiesta.Envelope.Void.Closed.{HasVoided}
use bug_free_fiesta.Envelope.Void.Voided.{Repeats, void_document-HasVoided}
use bug_free_fiesta.Envelope.Prepare.{
  to_field, store_fields, maybe_mark_prepared, envelope_is_prepared, assert_each_signer_has_field,
  to_field_type, to_fields, box_of, ReplaceFieldsInput, FieldRow, replace_document_fields,
}
use bug_free_fiesta.Domain.FieldGeometry.{
  max_normalized, epsilon, FieldBox, assert_none_overlap, assert_field_on_page, assert_each_on_page,
  fields_overlap, assert_field_layout,
}
use bug_free_fiesta.Envelope.Prepare.LaidOut.{replace_document_fields-LaidOut, LaidOut}
use bug_free_fiesta.Prelude.Int.{◌≤ℤ◌, pos}
use bug_free_fiesta.Domain.FieldGeometry.Layout.{
  assert_field_layout_iff, Apart, OnPage, fields_overlap_iff, Overlapping,
}
use bug_free_fiesta.Domain.Doubles.{round_to, unit_of, round_double, add_double}

abbrev office : String
office = "11111111-1111-4111-8111-111111111111"

abbrev owner : AccountUserActor
owner = record {
  user_id = "user";
  membership_id = "member";
  organization_id = office;
  role = MembershipRole.owner;
}

abbrev office_lease : Document
office_lease = record lease { organization_id = office }

abbrev envelope : Repositories
envelope = record shop {
  documents = office_lease ∷ [];
  signers = record tenant { organization_id = office } ∷ [];
  sessions = record tenant_session { organization_id = office } ∷ [];
}

abbrev void_input : VoidDocumentInput
void_input = record {
  actor = owner;
  document_id = "doc";
  idempotency_key = " key-0001 ";
  request_id = "request";
}

abbrev voided_body : PublicDocument
voided_body =
    to_public_document (record office_lease { state = DocumentState.voided }) none
      (record tenant { organization_id = office } ∷ []) []

abbrev format : BodyFormat
format = record { stored_body = λ body. end; safe_parse = λ body. some voided_body }

abbrev after_void : Repositories
after_void = left (void_document runtime format 60 void_input envelope)

void_document-replays_example :
    void_document runtime format 60 void_input after_void
    ≡ done voided_body (record after_void { clock_reads = after_void.clock_reads + 1 })
unfolding void_document ◌>>=◌ lift organization_of_actor require_organization_id assert_allowed
    require_idempotency_key now_utc replay_or_begin_idempotency gets begin_from find_idempotency
    find_row next_id on_idempotency create_idempotency pure void_begun require find_document
    audit_chain_schema_version canonicalize compute_audit_event_hash key_before
    to_canonical_audit_event assert_document_transition can_transition_document
    is_available_for_signing assert_approved_audit_payload check_props is_forbidden_key
    normalize_key has_part has_prefix is_opaque_id is_space matches require_opaque_id same_text
    utf16_length insert_key stable_json trim answer_voided replay_void_response revoke_listed
    store_void append_event on_audit_log on_documents on_sessions throw write_session bump_current
    bump_document find_revision has_document_key mark_voided append_audit complete_idempotency
    events_of_document find_latest in_chain in_scope latest latest_from replace_row update_row act
    complete_row expire_row has_session_key present_row revoke_row rotate_row sessions_of_document
    update_session fields_of_document signers_of_document to_public_document
void_document-replays_example =
    void_document-replays runtime format 60 void_input envelope after_void after_void voided_body
      refl tt refl refl

void_document-HasVoided_example :
    (organization_id : String) × (organization_of_actor (RequestActor.account_user owner)
      ≡ ok organization_id)
    × (assert_allowed
          (RequestActor.account_user owner)
          AuthorizationAction.document_void
          (record { organization_id = organization_id; document_id = some "doc"; signer_id = none })
        ≡ ok tt)
    × (Repeats runtime format void_input organization_id envelope after_void voided_body
        ⊎ HasVoided organization_id "doc" after_void)
unfolding void_document ◌>>=◌ lift organization_of_actor require_organization_id assert_allowed
    require_idempotency_key now_utc replay_or_begin_idempotency gets begin_from find_idempotency
    find_row next_id on_idempotency create_idempotency pure void_begun require find_document
    audit_chain_schema_version canonicalize compute_audit_event_hash key_before
    to_canonical_audit_event assert_document_transition can_transition_document
    is_available_for_signing assert_approved_audit_payload check_props is_forbidden_key
    normalize_key has_part has_prefix is_opaque_id is_space matches require_opaque_id same_text
    utf16_length insert_key stable_json trim answer_voided replay_void_response revoke_listed
    store_void append_event on_audit_log on_documents on_sessions throw write_session bump_current
    bump_document find_revision has_document_key mark_voided append_audit complete_idempotency
    events_of_document find_latest in_chain in_scope latest latest_from replace_row update_row act
    complete_row expire_row has_session_key present_row revoke_row rotate_row sessions_of_document
    update_session fields_of_document signers_of_document to_public_document
void_document-HasVoided_example =
    void_document-HasVoided runtime format 60 void_input envelope after_void voided_body (tt, tt)
      refl

abbrev page : DocumentRevision
page = record {
  id = "revision";
  organization_id = office;
  document_id = "doc";
  kind = DocumentRevisionKind.source;
  object_key = "key";
  content_type = "application/pdf";
  size_bytes = 100;
  sha256_digest = "digest";
  display_name = "lease.pdf";
  page_count = 2;
  created_at = 0;
}

abbrev draft_envelope : Repositories
draft_envelope = record envelope {
  documents = record office_lease { state = DocumentState.draft } ∷ [];
  revisions = page ∷ [];
}

abbrev signature_row : FieldRow
signature_row = record {
  signer_id = "tenant";
  type = "signature";
  page_number = 2;
  x = pos (3602879701896397 * 2 ^ 1019);
  y = pos (3602879701896397 * 2 ^ 1020);
  width = pos (5404319552844595 * 2 ^ 1020);
  height = pos (3602879701896397 * 2 ^ 1018);
  required = none;
}

abbrev fields_input : ReplaceFieldsInput
fields_input = record {
  actor = owner;
  document_id = "doc";
  overlap_policy = FieldOverlapPolicy.prohibit;
  fields = signature_row ∷ record signature_row { type = "date_signed"; page_number = 1 } ∷ [];
  request_id = "request";
}

abbrev after_fields : Repositories
after_fields = left (replace_document_fields runtime fields_input draft_envelope)

abbrev placed_field : ℕ → SignatureFieldType → SignatureField
placed_field page_number type = record {
  id = "id";
  organization_id = office;
  document_id = "doc";
  signer_id = "tenant";
  type = type;
  page_number = page_number;
  x = pos (3602879701896397 * 2 ^ 1019);
  y = pos (3602879701896397 * 2 ^ 1020);
  width = pos (5404319552844595 * 2 ^ 1020);
  height = pos (3602879701896397 * 2 ^ 1018);
  required = true;
  completed_at = none;
  completion_object_key = none;
  completion_content_type = none;
  completion_size_bytes = none;
  completion_sha256_digest = none;
  flattened_revision_id = none;
  created_at = 10;
  updated_at = 10;
}

abbrev prepared_body : PublicDocument
prepared_body =
    to_public_document (record office_lease { state = DocumentState.prepared }) (some page)
      (record tenant { organization_id = office } ∷ [])
      (placed_field 2 SignatureFieldType.signature
        ∷ placed_field 1 SignatureFieldType.date_signed
        ∷ [])

replace_document_fields-LaidOut_example :
    LaidOut fields_input draft_envelope after_fields prepared_body
unfolding assert_preparation_unlocked to_fields to_field_type assert_each_on_page
    assert_field_on_page assert_none_overlap assert_signer_routing consecutive_from includes set_of
    assert_each_signer_has_field envelope_is_prepared maybe_mark_prepared store_fields to_field
    on_fields set_preparation_state replace_all_fields replace_document_fields ◌>>=◌ lift
    organization_of_actor require_organization_id assert_allowed gets require find_document find_row
    has_document_key find_revision signers_of_document now_utc audit_chain_schema_version
    canonicalize compute_audit_event_hash key_before to_canonical_audit_event assert_field_layout
    fields_overlap can_transition_document is_available_for_signing assert_approved_audit_payload
    check_props is_forbidden_key normalize_key has_part has_prefix is_opaque_id is_space matches
    require_opaque_id same_text utf16_length to_public_document append_event next_id on_audit_log
    on_documents pure bump_current bump_document append_audit events_of_document find_latest
    in_chain latest latest_from replace_row update_row add_double max_normalized epsilon
replace_document_fields-LaidOut_example =
    replace_document_fields-LaidOut runtime fields_input draft_envelope after_fields prepared_body
      refl

abbrev prepared_fields : List SignatureField
prepared_fields =
    placed_field 2 SignatureFieldType.signature ∷ placed_field 1 SignatureFieldType.date_signed ∷ []

assert_field_layout_iff_example :
    (assert_field_layout (map box_of prepared_fields) (pos 2) FieldOverlapPolicy.prohibit ≡ ok tt)
    ↔ ((pos 1 ≤ℤ pos 2)
        × All (OnPage (pos 2)) (map box_of prepared_fields)
        × (FieldOverlapPolicy.prohibit ≡ FieldOverlapPolicy.prohibit
            → Apart (map box_of prepared_fields)))
assert_field_layout_iff_example =
    assert_field_layout_iff (map box_of prepared_fields) (pos 2) FieldOverlapPolicy.prohibit

fields_overlap_iff_example :
    ((fields_overlap
          (box_of (placed_field 1 SignatureFieldType.signature))
          (box_of (placed_field 1 SignatureFieldType.initials))
        ≡ true)
      ↔ Overlapping
          (box_of (placed_field 1 SignatureFieldType.signature))
          (box_of (placed_field 1 SignatureFieldType.initials)))
    × ((fields_overlap
            (box_of (placed_field 1 SignatureFieldType.initials))
            (box_of (placed_field 1 SignatureFieldType.signature))
          ≡ true)
        ↔ Overlapping
            (box_of (placed_field 1 SignatureFieldType.signature))
            (box_of (placed_field 1 SignatureFieldType.initials)))
fields_overlap_iff_example =
    fields_overlap_iff (box_of (placed_field 1 SignatureFieldType.signature))
      (box_of (placed_field 1 SignatureFieldType.initials))

-- 0.1 + 0.2 is not 0.3.
rounded_sum :
    add_double (pos (3602879701896397 * 2 ^ 1019)) (pos (3602879701896397 * 2 ^ 1020))
    ≡ pos (1351079888211149 * 2 ^ 1022)
unfolding add_double round_double unit_of round_to
rounded_sum = refl

abbrev wide_box : FieldBox
wide_box = record {
  page_number = pos 1;
  x = pos (3620894100405879 * 2 ^ 1021);
  y = pos 0;
  width = pos (7313845830878483 * 2 ^ 1019);
  height = pos (5404319552844595 * 2 ^ 1020);
}

-- 0.402 + 0.203000001 and 0.605 + 1e-9 are rounded apart: the two boxes overlap.
rounded_edges :
    fields_overlap wide_box (record wide_box { x = pos (1362338887279575 * 2 ^ 1023) }) ≡ true
unfolding fields_overlap add_double round_double unit_of round_to epsilon
rounded_edges = refl
