-- ===== src/Signing/Complete.antt =====
-- packages/application/src/signing/complete-signing.ts. The object storage, the digest of an image and
-- the decoder of base64 are arguments; the metric callback is left out.
pub mod Sound
pub mod Signed
pub mod Answers
pub mod Answered
use bug_free_fiesta.Program.{
  on_outbox, next_id, append_event, on_idempotency, gets, run, write_session, now_utc, on_fields,
  ◌>>=◌, on_documents, pure, on_signers, ◌>>◌, lift, Handler, Runtime,
}
use bug_free_fiesta.Prelude.{
  is_none, true, ◌==◌, ◌+◌, false, length, not, any, all, [], ◌&&◌, str_eq, map, keep_if, some,
  if◌then◌else◌, ◌∷◌, none, List, String, ℕ, Bool, Option,
}
use bug_free_fiesta.Domain.Entities.{Signer, SignatureField, ConsentRecord, Payload}
use bug_free_fiesta.Signing.Checks.{EnvelopePolicy, LoadedSignerSession}
use bug_free_fiesta.Domain.Json.{boolean, strings, array, end, undefined, Props, prop, string, Json}
use bug_free_fiesta.Signing.Png.{validate_signature_png, ValidatedPng, decode_png_base64}
use bug_free_fiesta.Domain.Statuses.{
  signer_signed, DocumentState, document_state_eq, SignerStatus, signature_field_type_eq,
  signer_status_eq, AuditActorType, SignatureFieldType,
}
use bug_free_fiesta.Domain.Errors.{
  conflict_error, throw_if, guard, ok, validation_error, ApplicationError, err, Result,
}
use bug_free_fiesta.Store.Signers.{
  fields_of_document, signers_of_document, consent_of_session, complete_field, sign_row,
  update_signer, FieldCompletion,
}
use bug_free_fiesta.Envelope.Requests.{
  replay_or_begin_idempotency, require_idempotency_key, Begun, BeginInput,
}
use bug_free_fiesta.Envelope.Prepare.{assigned_to, has_id}
use bug_free_fiesta.Envelope.Void.{missing_body}
use bug_free_fiesta.Domain.Canonical.{key_before}
use bug_free_fiesta.Store.Documents.{mark_in_progress, mark_completed, bump_document}
use bug_free_fiesta.Domain.SigningMode.{can_signer_act_now}
use bug_free_fiesta.Domain.ObjectKeys.{signature_image_object_key}
use bug_free_fiesta.Signing.Session.{load_signer_session}
use bug_free_fiesta.Domain.Actor.{AuthorizationAction, RequestActor, assert_allowed}
use bug_free_fiesta.Store.Sessions.Moves.{SessionUpdate}
use bug_free_fiesta.Store.Ledger.{publish_job, complete_idempotency}

abbrev complete_signing_route : String
complete_signing_route = "POST /signing/complete"

abbrev flatten_signature_job_type : String
flatten_signature_job_type = "flatten_signature"

abbrev png_content_type : String
png_content_type = "image/png"

pub record CompleteSigningInput : Type 0 where
  pub raw_token : String
  pub consent_copy_id : String
  pub intent_to_sign : Bool
  pub field_ids : List String
  pub signature : Option String
  pub initials : Option String
  pub idempotency_key : String
  pub request_id : String
  pub account_user_id : Option String

pub record CompleteSigningResult : Type 0 where
  pub accepted : Bool
  pub document_id : String
  pub signer_id : String

-- `storage.putObject`, `sha256Hex`, `Buffer.from` and `String`, with the limits of the deployment.
pub record InkSupport : Type 0 where
  pub put_object : String → String → List ℕ → Result (Unit {0})
  pub sha256_hex : List ℕ → String
  pub from_base64 : String → Option (List ℕ)
  pub text_of : Json → String
  pub max_png_bytes : ℕ
  pub idempotency_ttl_ms : ℕ

pub record Ink : Type 0 where
  pub key : String
  pub digest : String
  pub size : ℕ

unfoldable pub all_required_signed : List Signer → Bool
all_required_signed = all (λ signer. signer_status_eq signer.status SignerStatus.signed)

-- `new Set(fieldIds).size`
abbrev distinct_ids : List String → ℕ
distinct_ids [] = 0
distinct_ids (id ∷ ids) = (if has_id id ids then 0 else 1) + distinct_ids ids

abbrev refuse_fields : String → ApplicationError
refuse_fields reason = validation_error (("field", "fieldIds") ∷ ("reason", reason) ∷ [])

unfoldable pub select_fields : List SignatureField → List String → Result (List SignatureField)
select_fields signer_fields field_ids =
    let selected = keep_if (λ field. has_id field.id field_ids) signer_fields in
    if not (length selected == distinct_ids field_ids)
    then err (refuse_fields "unknown_field")
    else (if all (λ field. has_id field.id field_ids)
          (keep_if (λ field. field.required) signer_fields)
        then ok selected
        else err (refuse_fields "required_field_missing"))

abbrev has_type : SignatureFieldType → List SignatureField → Bool
has_type type fields = any (λ field. signature_field_type_eq field.type type) fields

abbrev missing_ink : String → ApplicationError
missing_ink field = validation_error (("field", field) ∷ ("reason", "required") ∷ [])

unfoldable pub assert_ink_for_fields : List SignatureField → Bool → Bool → Result (Unit {0})
assert_ink_for_fields fields has_signature has_initials =
    if has_type SignatureFieldType.signature fields && not has_signature
    then err (missing_ink "signature")
    else throw_if (has_type SignatureFieldType.initials fields && not has_initials)
        (missing_ink "initials")

abbrev pub png_or_error : Result (List ℕ) → ℕ → Result (Option ValidatedPng)
png_or_error (err e) max_bytes = err e
png_or_error (ok body) max_bytes = elim (validate_signature_png body max_bytes) [
  | err e ↦ err e
  | ok png ↦ ok (some png)
]

-- `input.signature ? validateSignaturePng(decodePngBase64(…)) : null`
unfoldable pub decoded_ink : InkSupport → Option String → Result (Option ValidatedPng)
unfolding decode_png_base64 validate_signature_png
decoded_ink support none = ok none
decoded_ink support (some text) =
    png_or_error (decode_png_base64 support.from_base64 text) support.max_png_bytes

abbrev stored_ink : Result (Unit {0}) → Ink → Result (Option Ink)
stored_ink (err e) ink = err e
stored_ink (ok x) ink = ok (some ink)

abbrev ink_below : InkSupport → String → ValidatedPng → Result String → Result (Option Ink)
ink_below support organization_id png (err e) = err e
ink_below support organization_id png (ok key) =
    stored_ink (support.put_object organization_id key png.bytes)
      (record { key = key; digest = support.sha256_hex png.bytes; size = length png.bytes })

-- The upload of one image.
unfoldable pub upload_ink : InkSupport → String → Option ValidatedPng → Result (Option Ink)
upload_ink support organization_id none = ok none
upload_ink support organization_id (some png) =
    ink_below support organization_id png
      (signature_image_object_key organization_id (support.sha256_hex png.bytes))

-- `document.currentRevisionId ?? document.signingRevisionId`
unfoldable pub source_revision_of : Option String → Option String → Result String
source_revision_of (some current) signing = ok current
source_revision_of none (some signing) = ok signing
source_revision_of none none = err (validation_error (("reason", "missing_revision") ∷ []))

abbrev ink_for : SignatureFieldType → Option Ink → Option Ink → Option Ink
ink_for SignatureFieldType.signature signature initials = signature
ink_for SignatureFieldType.initials signature initials = initials
ink_for _ signature initials = none

abbrev completion_of : ℕ → Option Ink → FieldCompletion
completion_of now none = record {
  completed_at = now;
  object_key = none;
  content_type = none;
  size_bytes = none;
  sha256_digest = none;
}
completion_of now (some ink) = record {
  completed_at = now;
  object_key = some ink.key;
  content_type = some png_content_type;
  size_bytes = some ink.size;
  sha256_digest = some ink.digest;
}

-- `consent === null || consent.consentCopyId !== input.consentCopyId`
unfoldable pub checked_consent : String → Option ConsentRecord → Result ConsentRecord
checked_consent copy_id none =
    err (validation_error (("field", "consentCopyId") ∷ ("reason", "consent_required") ∷ []))
checked_consent copy_id (some consent) =
    if str_eq consent.consent_copy_id copy_id
    then ok consent
    else err (validation_error (("field", "consentCopyId") ∷ ("reason", "consent_required") ∷ []))

abbrev property : String → Props → Json
property key end = undefined
property key (prop other value rest) = if str_eq other key then value else property key rest

abbrev is_pending_text : Json → Bool
is_pending_text (string text) = str_eq text "pending"
is_pending_text _ = false

unfoldable pub replay_complete_response : InkSupport → Option Payload → Result CompleteSigningResult
replay_complete_response support none = err missing_body
replay_complete_response support (some body) = ok (record {
  accepted = not (is_pending_text (property "status" body));
  document_id = support.text_of (property "documentId" body);
  signer_id = support.text_of (property "signerId" body);
})

abbrev completed_body : CompleteSigningResult → Payload
completed_body result =
    prop "status" (string (if result.accepted then "accepted" else "pending")) (
      prop "documentId" (string result.document_id) (prop "signerId" (string result.signer_id) end))

-- `[...fieldIds].sort()`
insert_text : String → List String → List String
insert_text text [] = text ∷ []
insert_text text (other ∷ rest) =
    if key_before other text then other ∷ insert_text text rest else text ∷ other ∷ rest

unfoldable pub sorted_texts : List String → List String
unfolding insert_text
sorted_texts [] = []
sorted_texts (text ∷ rest) = insert_text text (sorted_texts rest)

-- The roster, with the signer signed.
unfoldable pub with_signed : String → List Signer → List Signer
with_signed signer_id =
    map
      (λ row. if str_eq row.id signer_id then record row { status = SignerStatus.signed } else row)

module _ (rt : Runtime) where
  -- The loop over the selected fields.
  unfoldable pub complete_fields :
      String → ℕ → Option Ink → Option Ink → List SignatureField → Handler (Unit {0})
  complete_fields organization_id now signature initials [] = pure tt
  complete_fields organization_id now signature initials (field ∷ fields) = do
    on_fields (
        complete_field (record { organization_id = organization_id; field_id = field.id })
          (completion_of now (ink_for field.type signature initials)))
    complete_fields organization_id now signature initials fields

  -- The move of the document, as the roster has it.
  unfoldable pub move_document : LoadedSignerSession → Bool → Handler (Unit {0})
  move_document loaded document_completed =
      if document_completed
      then (do
        on_documents (
            bump_document
              (record {
                organization_id = loaded.actor.organization_id;
                document_id = loaded.document.id;
              })
              loaded.document.version mark_completed)
        pure tt)
      else (if document_state_eq loaded.document.state DocumentState.sent
          then (do
            on_documents (
                bump_document
                  (record {
                    organization_id = loaded.actor.organization_id;
                    document_id = loaded.document.id;
                  })
                  loaded.document.version mark_in_progress)
            pure tt)
          else pure tt)

  -- The writes of a completion, in the order of the code.
  unfoldable pub store_completion :
      CompleteSigningInput
      → LoadedSignerSession
      → List Signer
      → List SignatureField
      → ConsentRecord
      → Option Ink
      → Option Ink
      → String
      → ℕ
      → Handler CompleteSigningResult
  store_completion input loaded roster selected consent signature initials source_revision_id now =
      do
        complete_fields loaded.actor.organization_id now signature initials selected
        on_signers (
            update_signer
              (record {
                organization_id = loaded.actor.organization_id;
                signer_id = loaded.signer.id;
              })
              (sign_row loaded.signer.version now))
        write_session
            (record {
              organization_id = loaded.actor.organization_id;
              session_id = loaded.session.id;
            })
            (SessionUpdate.completes now)
        move_document loaded (all_required_signed (with_signed loaded.signer.id roster))
        append_event rt (RequestActor.signer loaded.actor) loaded.actor.organization_id
            loaded.document.id signer_signed now
            (prop "signerId" (string loaded.signer.id) (
              prop "sessionId" (string loaded.session.id) (
                prop "fieldIds"
                  (array (strings (map (λ (field : SignatureField). field.id) selected)))
                  (prop "consentCopyId" (string consent.consent_copy_id) end))))
            input.request_id
        event_id ← next_id rt
        job_id ← next_id rt
        on_outbox (
            publish_job (record {
              id = event_id;
              organization_id = loaded.actor.organization_id;
              document_id = some loaded.document.id;
              type = flatten_signature_job_type;
              payload = prop "documentId" (string loaded.document.id) (
                  prop "signerId" (string loaded.signer.id) (
                    prop "sessionId" (string loaded.session.id)
                      (prop "revisionId" (string source_revision_id) end)));
              request_id = some input.request_id;
              available_at = some now;
              job_id = some job_id;
              max_attempts = none;
            }))
        pure (record {
          accepted = all_required_signed (with_signed loaded.signer.id roster);
          document_id = loaded.document.id;
          signer_id = loaded.signer.id;
        })

  -- The completion, once the idempotency record is begun.
  unfoldable pub complete_begun :
      InkSupport
      → CompleteSigningInput
      → LoadedSignerSession
      → List Signer
      → List SignatureField
      → ConsentRecord
      → Option ValidatedPng
      → Option ValidatedPng
      → Begun
      → Handler CompleteSigningResult
  complete_begun support input loaded roster selected consent signature_png initials_png
        (Begun.replay existing) =
      lift (replay_complete_response support existing.response_body)
  complete_begun support input loaded roster selected consent signature_png initials_png
        (Begun.fresh begun) =
      do
        now ← now_utc rt
        signature ← lift (upload_ink support loaded.actor.organization_id signature_png)
        initials ← lift (upload_ink support loaded.actor.organization_id initials_png)
        source_revision_id ← lift (
            source_revision_of loaded.document.current_revision_id
              loaded.document.signing_revision_id)
        result ← run (
            store_completion input loaded roster selected consent signature initials
              source_revision_id now)
        on_idempotency
            (complete_idempotency loaded.actor.organization_id begun.id 200 (completed_body result))
        pure result

  abbrev pub complete_begin :
      InkSupport
      → CompleteSigningInput
      → LoadedSignerSession
      → Bool
      → Bool
      → String
      → ℕ
      → BeginInput
  complete_begin support input loaded has_signature has_initials key now = record {
    scope = record {
      organization_id = loaded.actor.organization_id;
      principal_id = loaded.signer.id;
      route = complete_signing_route;
      key = key;
    };
    principal_type = AuditActorType.signer;
    request = prop "documentId" (string loaded.document.id) (
        prop "signerId" (string loaded.signer.id) (
          prop "consentCopyId" (string input.consent_copy_id) (
            prop "fieldIds" (array (strings (sorted_texts input.field_ids))) (
              prop "hasSignature" (boolean has_signature)
                (prop "hasInitials" (boolean has_initials) end)))));
    now = now;
    ttl_ms = support.idempotency_ttl_ms;
    reuse_in_progress = true;
  }

  -- The checks of a signer that has not signed yet.
  unfoldable pub complete_checked :
      InkSupport
      → CompleteSigningInput
      → LoadedSignerSession
      → List Signer
      → List SignatureField
      → Handler CompleteSigningResult
  complete_checked support input loaded roster signer_fields = do
    lift (
        guard (can_signer_act_now loaded.document.signing_mode loaded.signer roster)
          (conflict_error (("reason", "signer_not_in_turn") ∷ [])))
    consent_found ←
        gets (λ s. consent_of_session loaded.actor.organization_id loaded.session.id s.consents)
    consent ← lift (checked_consent input.consent_copy_id consent_found)
    selected ← lift (select_fields signer_fields input.field_ids)
    signature_png ← lift (decoded_ink support input.signature)
    initials_png ← lift (decoded_ink support input.initials)
    lift (assert_ink_for_fields selected (not (is_none signature_png)) (not (is_none initials_png)))
    key ← lift (require_idempotency_key input.idempotency_key)
    now ← now_utc rt
    begun ← replay_or_begin_idempotency rt (
        complete_begin support input loaded (not (is_none signature_png))
          (not (is_none initials_png)) key now)
    complete_begun support input loaded roster selected consent signature_png initials_png begun

  -- A signer that has signed is answered with nothing written.
  unfoldable pub complete_loaded :
      InkSupport
      → CompleteSigningInput
      → LoadedSignerSession
      → List Signer
      → List SignatureField
      → Handler CompleteSigningResult
  complete_loaded support input loaded roster signer_fields =
      if signer_status_eq loaded.signer.status SignerStatus.signed
      then pure (record {
        accepted = all_required_signed roster;
        document_id = loaded.document.id;
        signer_id = loaded.signer.id;
      })
      else complete_checked support input loaded roster signer_fields

  unfoldable pub complete_signing :
      EnvelopePolicy → InkSupport → CompleteSigningInput → Handler CompleteSigningResult
  complete_signing requires_account_auth support input = do
    lift (
        guard input.intent_to_sign
          (validation_error (("field", "intentToSign") ∷ ("reason", "required") ∷ [])))
    loaded ← load_signer_session rt requires_account_auth (record {
      raw_token = input.raw_token;
      require_exchanged = true;
      allow_completed = true;
      account_user_id = input.account_user_id;
    })
    lift (
        assert_allowed (RequestActor.signer loaded.actor) AuthorizationAction.signing_session_act
          (record {
            organization_id = loaded.actor.organization_id;
            document_id = some loaded.actor.document_id;
            signer_id = some loaded.actor.signer_id;
          }))
    roster ←
        gets (λ s. signers_of_document loaded.actor.organization_id loaded.document.id s.signers)
    fields ← gets (λ s. fields_of_document loaded.actor.organization_id loaded.document.id s.fields)
    complete_loaded support input loaded roster (keep_if (assigned_to loaded.signer) fields)
