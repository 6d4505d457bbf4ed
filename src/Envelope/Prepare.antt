-- ===== src/Envelope/Prepare.antt =====
-- packages/application/src/documents/replace-preparation.ts: the signers and the fields of an envelope
-- that is not sent. A `Set` of ids is the list it is made of.
pub mod Prepared
pub mod Given
pub mod LaidOut
use bug_free_fiesta.Program.{
  run, now_utc, require, on_documents, gets, append_event, ◌>>◌, on_signers, pure, on_fields, ◌>>=◌,
  next_id, lift, Handler, Runtime,
}
use bug_free_fiesta.Prelude.{
  ◌+◌, is_none, none, ◌||◌, keep_if, not, [], option_str_eq, ◌==◌, ◌∷◌, some, false, ◌&&◌, length,
  str_eq, any, if◌then◌else◌, ℕ, true, map, ltb, String, List, Bool, Option,
}
use bug_free_fiesta.Domain.Entities.{Signer, SignatureField, Document}
use bug_free_fiesta.Envelope.Contacts.{lower_case, is_email}
use bug_free_fiesta.Domain.Actor.{
  AuthorizationAction, assert_allowed, RequestActor, organization_of_actor, AuthorizationResource,
  AccountUserActor,
}
use bug_free_fiesta.Envelope.Public.{to_public_document, PublicDocument}
use bug_free_fiesta.Domain.Errors.{
  not_found_error, succeeds, throw_if, guard, err, validation_error, ok, Result, ApplicationError,
}
use bug_free_fiesta.Domain.Statuses.{
  signers_updated, SignerStatus, fields_updated, document_state_eq, SignatureFieldType, SigningMode,
  DocumentState, FieldOverlapPolicy,
}
use bug_free_fiesta.Domain.Lifecycle.{
  assert_preparation_unlocked, can_transition_document, is_inspection_accepted,
}
use bug_free_fiesta.Domain.FieldGeometry.{assert_field_layout, FieldBox}
use bug_free_fiesta.Prelude.Int.{pos, ℤ}
use bug_free_fiesta.Domain.Text.{codes, utf16_length}
use bug_free_fiesta.Envelope.Requests.{trim}
use bug_free_fiesta.Store.Signers.{
  signers_of_document, fields_of_document, replace_all_fields, replace_all_signers,
}
use bug_free_fiesta.Domain.Json.{end, string, strings, array, prop}
use bug_free_fiesta.Domain.SigningMode.{asserted_signing_mode, assert_signer_routing}
use bug_free_fiesta.Store.Documents.{
  set_signing_mode, set_preparation_state, find_document, bump_document,
}
use bug_free_fiesta.Envelope.Void.{revision_of}

pub record SignerRow : Type 0 where
  pub signer_id : Option String
  pub email : String
  pub display_name : String
  pub routing_order : ℕ

pub record ReplaceSignersInput : Type 0 where
  pub actor : AccountUserActor
  pub document_id : String
  pub signing_mode : String
  pub signers : List SignerRow
  pub request_id : String

pub record FieldRow : Type 0 where
  pub signer_id : String
  pub type : String
  pub page_number : ℕ
  pub x : ℤ
  pub y : ℤ
  pub width : ℤ
  pub height : ℤ
  pub required : Option Bool

pub record ReplaceFieldsInput : Type 0 where
  pub actor : AccountUserActor
  pub document_id : String
  pub overlap_policy : FieldOverlapPolicy
  pub fields : List FieldRow
  pub request_id : String

abbrev refuse_row : String → String → ApplicationError
refuse_row field reason = validation_error (("field", field) ∷ ("reason", reason) ∷ [])

-- `ids.has(id)`
abbrev pub has_id : String → List String → Bool
has_id id ids = any (λ other. str_eq other id) ids

abbrev is_known : Option String → List String → Bool
is_known none existing_ids = true
is_known (some id) existing_ids = has_id id existing_ids

abbrev pub assigned_to : Signer → SignatureField → Bool
assigned_to signer field = str_eq field.signer_id signer.id

unfoldable pub assert_each_signer_has_field : List Signer → List SignatureField → Result (Unit {0})
assert_each_signer_has_field [] fields = ok tt
assert_each_signer_has_field (signer ∷ signers) fields =
    if length (keep_if (assigned_to signer) fields) == 0
    then err (
        validation_error
          (("field", "fields") ∷ ("reason", "signer_missing_field") ∷ ("signerId", signer.id) ∷ []))
    else assert_each_signer_has_field signers fields

unfoldable pub envelope_is_prepared : Document → List Signer → List SignatureField → Bool
unfolding assert_each_signer_has_field
envelope_is_prepared document signers fields =
    is_inspection_accepted document.inspection_status
    && not (is_none document.current_revision_id)
    && not (ltb (length signers) 1 || ltb (length fields) 1)
    && succeeds (assert_signer_routing document.signing_mode signers)
    && succeeds (assert_each_signer_has_field signers fields)

abbrev pub preparation_state : Bool → DocumentState
preparation_state true = DocumentState.prepared
preparation_state false = DocumentState.draft

unfoldable pub maybe_mark_prepared : Document → List Signer → List SignatureField → Handler Document
unfolding envelope_is_prepared
maybe_mark_prepared document signers fields =
    let next_state = preparation_state (envelope_is_prepared document signers fields) in
    if document_state_eq document.state next_state
      || not (can_transition_document document.state next_state)
    then pure document
    else on_documents (
        bump_document
          (record { organization_id = document.organization_id; document_id = document.id })
          document.version (set_preparation_state next_state))

-- `new Set(signers.map((signer) => signer.email)).size`
abbrev distinct_emails : List Signer → ℕ
distinct_emails [] = 0
distinct_emails (signer ∷ signers) =
    (if any (λ other. option_str_eq other.email signer.email) signers then 0 else 1)
    + distinct_emails signers

abbrev normal_email : SignerRow → String
normal_email row = lower_case (trim row.email)

abbrev bad_name : String → Bool
bad_name name = ltb (utf16_length (codes name)) 1 || ltb 120 (utf16_length (codes name))

abbrev ids_of : List Signer → List String
ids_of = map (λ signer. signer.id)

unfoldable pub to_field_type : String → Result SignatureFieldType
to_field_type text =
    if str_eq text "signature"
    then ok SignatureFieldType.signature
    else (if str_eq text "initials"
        then ok SignatureFieldType.initials
        else (if str_eq text "date_signed"
            then ok SignatureFieldType.date_signed
            else (if str_eq text "signer_name"
                then ok SignatureFieldType.signer_name
                else err (refuse_row "type" "invalid"))))

abbrev pub box_of : SignatureField → FieldBox
box_of field = record {
  page_number = pos field.page_number;
  x = field.x;
  y = field.y;
  width = field.width;
  height = field.height;
}

module _ (rt : Runtime) where
  -- `input.row.signerId ?? input.ids.next()`
  unfoldable pub id_or_next : Option String → Handler String
  id_or_next none = next_id rt
  id_or_next (some id) = pure id

  unfoldable pub to_signer : SignerRow → String → String → List String → ℕ → Handler Signer
  unfolding is_email lower_case trim utf16_length
  to_signer row organization_id document_id existing_ids now = do
    lift (guard (is_email (normal_email row)) (refuse_row "email" "invalid"))
    lift (throw_if (bad_name (trim row.display_name)) (refuse_row "displayName" "invalid"))
    signer_id ← id_or_next row.signer_id
    lift (guard (is_known row.signer_id existing_ids) (refuse_row "signerId" "unknown_signer"))
    pure (record {
      id = signer_id;
      organization_id = organization_id;
      document_id = document_id;
      account_user_id = none;
      routing_order = row.routing_order;
      status = SignerStatus.pending;
      email = some (normal_email row);
      display_name = trim row.display_name;
      version = 1;
      completed_at = none;
      declined_at = none;
      created_at = now;
      updated_at = now;
    })

  -- `input.signers.map((row) => toSigner(…))`
  unfoldable pub to_signers :
      List SignerRow → String → String → List String → ℕ → Handler (List Signer)
  unfolding to_signer
  to_signers [] organization_id document_id existing_ids now = pure []
  to_signers (row ∷ rows) organization_id document_id existing_ids now = do
    signer ← to_signer row organization_id document_id existing_ids now
    signers ← to_signers rows organization_id document_id existing_ids now
    pure (signer ∷ signers)

  -- The fields that are left without a signer are removed.
  unfoldable pub keep_fields :
      String → String → List SignatureField → List SignatureField → Handler (Unit {0})
  keep_fields organization_id document_id kept fields =
      if length kept == length fields
      then pure tt
      else (do replaced ← on_fields (replace_all_fields organization_id document_id kept); pure tt)

  unfoldable pub store_signers :
      ReplaceSignersInput
      → String
      → Document
      → SigningMode
      → List Signer
      → ℕ
      → Handler (Document × List SignatureField)
  store_signers input organization_id document signing_mode signers now = do
    replaced ← on_signers (replace_all_signers organization_id document.id signers)
    fields ← gets (λ s. fields_of_document organization_id document.id s.fields)
    keep_fields organization_id document.id
        (keep_if (λ field. has_id field.signer_id (ids_of replaced)) fields) fields
    moded ← on_documents (
        bump_document (record { organization_id = organization_id; document_id = document.id })
          document.version (set_signing_mode signing_mode))
    next ←
        maybe_mark_prepared moded replaced
          (keep_if (λ field. has_id field.signer_id (ids_of replaced)) fields)
    append_event rt (RequestActor.account_user input.actor) organization_id document.id
        signers_updated now
        (prop "signerIds" (array (strings (ids_of replaced)))
          (prop "signingMode" (string input.signing_mode) end))
        input.request_id
    pure (next, keep_if (λ field. has_id field.signer_id (ids_of replaced)) fields)

  abbrev write_resource : String → String → AuthorizationResource
  write_resource organization_id document_id = record {
    organization_id = organization_id;
    document_id = some document_id;
    signer_id = none;
  }

  unfoldable pub replace_document_signers : ReplaceSignersInput → Handler PublicDocument
  replace_document_signers input = do
    organization_id ← lift (organization_of_actor (RequestActor.account_user input.actor))
    lift (
        assert_allowed (RequestActor.account_user input.actor) AuthorizationAction.document_write
          (write_resource organization_id input.document_id))
    found ← gets (λ s.
        find_document
          (record { organization_id = organization_id; document_id = input.document_id })
          s.documents)
    document ← require found (not_found_error (("resource", "document") ∷ []))
    lift (assert_preparation_unlocked document)
    signing_mode ← lift (asserted_signing_mode input.signing_mode)
    now ← now_utc rt
    existing ← gets (λ s. signers_of_document organization_id document.id s.signers)
    signers ← to_signers input.signers organization_id document.id (ids_of existing) now
    lift (assert_signer_routing signing_mode signers)
    lift (guard (distinct_emails signers == length signers) (refuse_row "email" "duplicate"))
    persisted ← run (store_signers input organization_id document signing_mode signers now)
    revision ←
        gets
          (λ s. revision_of persisted.0.organization_id persisted.0.current_revision_id s.revisions)
    pure (to_public_document persisted.0 revision signers persisted.1)

  unfoldable pub to_field : FieldRow → String → String → List String → ℕ → Handler SignatureField
  to_field row organization_id document_id signer_ids now = do
    lift (guard (has_id row.signer_id signer_ids) (refuse_row "signerId" "unknown_signer"))
    type ← lift (to_field_type row.type)
    id ← next_id rt
    pure (record {
      id = id;
      organization_id = organization_id;
      document_id = document_id;
      signer_id = row.signer_id;
      type = type;
      page_number = row.page_number;
      x = row.x;
      y = row.y;
      width = row.width;
      height = row.height;
      required = elim row.required [ none ↦ true | some required ↦ required ];
      completed_at = none;
      completion_object_key = none;
      completion_content_type = none;
      completion_size_bytes = none;
      completion_sha256_digest = none;
      flattened_revision_id = none;
      created_at = now;
      updated_at = now;
    })

  -- `input.fields.map((row) => …)`
  unfoldable pub to_fields :
      List FieldRow → String → String → List String → ℕ → Handler (List SignatureField)
  unfolding to_field
  to_fields [] organization_id document_id signer_ids now = pure []
  to_fields (row ∷ rows) organization_id document_id signer_ids now = do
    field ← to_field row organization_id document_id signer_ids now
    fields ← to_fields rows organization_id document_id signer_ids now
    pure (field ∷ fields)

  unfoldable pub store_fields :
      ReplaceFieldsInput
      → String
      → Document
      → List Signer
      → List SignatureField
      → ℕ
      → Handler Document
  store_fields input organization_id document signers fields now = do
    replaced ← on_fields (replace_all_fields organization_id document.id fields)
    next ← maybe_mark_prepared document signers replaced
    append_event rt (RequestActor.account_user input.actor) organization_id document.id
        fields_updated now (prop "fieldIds" (array (strings (map (λ row. row.id) replaced))) end)
        input.request_id
    pure next

  unfoldable pub replace_document_fields : ReplaceFieldsInput → Handler PublicDocument
  replace_document_fields input = do
    organization_id ← lift (organization_of_actor (RequestActor.account_user input.actor))
    lift (
        assert_allowed (RequestActor.account_user input.actor) AuthorizationAction.document_write
          (write_resource organization_id input.document_id))
    found ← gets (λ s.
        find_document
          (record { organization_id = organization_id; document_id = input.document_id })
          s.documents)
    document ← require found (not_found_error (("resource", "document") ∷ []))
    lift (assert_preparation_unlocked document)
    revision_found ←
        gets (λ s. revision_of document.organization_id document.current_revision_id s.revisions)
    revision ← require revision_found (validation_error (("reason", "missing_revision") ∷ []))
    signers ← gets (λ s. signers_of_document organization_id document.id s.signers)
    lift (throw_if (length signers == 0) (refuse_row "signers" "empty"))
    now ← now_utc rt
    fields ← to_fields input.fields organization_id document.id (ids_of signers) now
    lift (assert_field_layout (map box_of fields) (pos revision.page_count) input.overlap_policy)
    lift (assert_each_signer_has_field signers fields)
    next ← run (store_fields input organization_id document signers fields now)
    pure (to_public_document next (some revision) signers fields)
