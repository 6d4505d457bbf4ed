-- ===== src/Envelope/Send.antt =====
-- packages/application/src/documents/send-document.ts. The notifier is not one of the repositories, and
-- its messages are left out; the invitations of a replayed answer carry no token.
use bug_free_fiesta.Program.{
  on_outbox, run, on_sessions, next_id, generate_raw_token, now_utc, append_event, on_idempotency,
  require, ◌>>◌, on_documents, lift, gets, pure, ◌>>=◌, Handler, Runtime,
}
use bug_free_fiesta.Prelude.{
  ◌+◌, true, length, ltb, false, [], leb, str_eq, ◌∷◌, some, map, if◌then◌else◌, List, String, none,
  Bool, ℕ, Option,
}
use bug_free_fiesta.Domain.Entities.{
  SignatureField, DocumentRevision, Document, Signer, Payload, SigningSession,
}
use bug_free_fiesta.Domain.Actor.{
  AuthorizationAction, assert_allowed, RequestActor, organization_of_actor, AccountUserActor,
}
use bug_free_fiesta.Envelope.Public.{to_public_document, PublicDocument}
use bug_free_fiesta.Domain.Errors.{
  guard, conflict_error, throw_if, not_found_error, err, ok, Result, validation_error,
  ApplicationError,
}
use bug_free_fiesta.Domain.Json.{strings, array, end, null, string, Json, prop}
use bug_free_fiesta.Envelope.Requests.{
  replay_or_begin_idempotency, require_idempotency_key, BeginInput, Begun,
}
use bug_free_fiesta.Domain.Statuses.{
  session_issued, document_sent, AuditActorType, SigningSessionStatus,
}
use bug_free_fiesta.Store.Sessions.{create_session, open_sessions_of_signer}
use bug_free_fiesta.Envelope.Void.{revision_of, missing_body}
use bug_free_fiesta.Store.Documents.{mark_sent, bump_document, find_document}
use bug_free_fiesta.Domain.Lifecycle.{assert_ready_to_send}
use bug_free_fiesta.Store.Ledger.{publish_job, complete_idempotency}
use bug_free_fiesta.Store.Signers.{fields_of_document, signers_of_document}
use bug_free_fiesta.Envelope.Prepare.{envelope_is_prepared}

abbrev send_document_route : String
send_document_route = "POST /organizations/:organizationId/documents/:documentId/send"

abbrev notify_signer_job_type : String
notify_signer_job_type = "notify_signer"

pub record SendDocumentInput : Type 0 where
  pub actor : AccountUserActor
  pub document_id : String
  pub expires_at : Option String
  pub idempotency_key : String
  pub request_id : String

pub record Invitation : Type 0 where
  pub signer_id : String
  pub session_id : String
  pub expires_at : String
  pub token : Option String

pub record SendDocumentResult : Type 0 where
  pub document : PublicDocument
  pub invitations : List Invitation

-- How the body of an answer is stored as JSON, and how a replay reads its keys again; the time that
-- `new Date(text)` stands for, if any.
pub record SendFormat : Type 0 where
  pub stored_body : SendDocumentResult → Payload
  pub read_body : Payload → SendDocumentResult
  pub parse_date : String → Option ℕ

pub record IssuedLink : Type 0 where
  pub session : SigningSession
  pub raw_token : String

abbrev not_in_future : ApplicationError
not_in_future = validation_error (("field", "expiresAt") ∷ ("reason", "not_in_future") ∷ [])

abbrev checked_date : Option ℕ → ℕ → Result (Option ℕ)
checked_date none now = err not_in_future
checked_date (some parsed) now = if leb parsed now then err not_in_future else ok (some parsed)

unfoldable pub parse_expires_at : SendFormat → Option String → ℕ → Result (Option ℕ)
parse_expires_at format none now = ok none
parse_expires_at format (some value) now =
    if str_eq value "" then ok none else checked_date (format.parse_date value) now

abbrev without_token : Invitation → Invitation
without_token invitation = record invitation { token = none }

unfoldable pub replay_send_response : SendFormat → Option Payload → Result SendDocumentResult
replay_send_response format none = err missing_body
replay_send_response format (some body) =
    let read = format.read_body body in
    ok (record read { invitations = map without_token read.invitations })

abbrev optional_text : Option String → Json
optional_text none = null
optional_text (some text) = string text

module _ (rt : Runtime) where
  abbrev pub sent_session :
      String → SendDocumentInput → String → String → Signer → String → ℕ → ℕ → SigningSession
  sent_session organization_id input document_id id signer token_hash now expires_at = record {
    id = id;
    organization_id = organization_id;
    document_id = document_id;
    signer_id = signer.id;
    token_hash = token_hash;
    csrf_token_hash = none;
    status = SigningSessionStatus.issued;
    expires_at = expires_at;
    consumed_at = none;
    completed_at = none;
    revoked_at = none;
    presentation_attempt_count = 0;
    failed_presentation_count = 0;
    last_presented_at = none;
    request_id = some input.request_id;
    version = 1;
    created_at = now;
    updated_at = now;
  }

  abbrev link_payload : String → String → Payload
  link_payload signer_id session_id =
      prop "signerId" (string signer_id) (prop "sessionId" (string session_id) end)

  -- The session, the event and the job of one signer.
  unfoldable pub issue_link :
      ℕ → SendDocumentInput → String → Document → ℕ → Signer → Handler IssuedLink
  issue_link session_ttl_ms input organization_id document now signer = do
    opened ← gets (λ s. open_sessions_of_signer organization_id signer.id s.sessions)
    lift (
        throw_if (ltb 0 (length opened))
          (conflict_error (("reason", "duplicate_open_session") ∷ ("signerId", signer.id) ∷ [])))
    raw_token ← generate_raw_token rt
    id ← next_id rt
    session ← on_sessions (
        create_session organization_id (
          sent_session organization_id input document.id id signer (rt.hash_token raw_token) now
            (now + session_ttl_ms)))
    append_event rt (RequestActor.account_user input.actor) organization_id document.id
        session_issued now (link_payload signer.id session.id) input.request_id
    event_id ← next_id rt
    job_id ← next_id rt
    on_outbox (
        publish_job (record {
          id = event_id;
          organization_id = organization_id;
          document_id = some document.id;
          type = notify_signer_job_type;
          payload = link_payload signer.id session.id;
          request_id = some input.request_id;
          available_at = some now;
          job_id = some job_id;
          max_attempts = none;
        }))
    pure (record { session = session; raw_token = raw_token })

  -- The loop over the signers.
  unfoldable pub issue_links :
      ℕ → SendDocumentInput → String → Document → ℕ → List Signer → Handler (List IssuedLink)
  unfolding issue_link
  issue_links session_ttl_ms input organization_id document now [] = pure []
  issue_links session_ttl_ms input organization_id document now (signer ∷ signers) = do
    link ← issue_link session_ttl_ms input organization_id document now signer
    links ← issue_links session_ttl_ms input organization_id document now signers
    pure (link ∷ links)

  unfoldable pub store_sent :
      ℕ
      → SendDocumentInput
      → String
      → Document
      → DocumentRevision
      → List Signer
      → ℕ
      → Option ℕ
      → Handler (Document × List IssuedLink)
  store_sent session_ttl_ms input organization_id document revision signers now expires_at = do
    updated ← on_documents (
        bump_document (record { organization_id = organization_id; document_id = document.id })
          document.version (mark_sent revision.id expires_at))
    issued ← issue_links session_ttl_ms input organization_id document now signers
    append_event rt (RequestActor.account_user input.actor) organization_id document.id
        document_sent now
        (prop "signingRevisionId" (string revision.id) (
          prop "sessionIds" (array (strings (map (λ (link : IssuedLink). link.session.id) issued)))
            end))
        input.request_id
    pure (updated, issued)

  abbrev invitation_of : Bool → IssuedLink → Invitation
  invitation_of shown link = record {
    signer_id = link.session.signer_id;
    session_id = link.session.id;
    expires_at = rt.iso link.session.expires_at;
    token = if shown then some link.raw_token else none;
  }

  abbrev result_of : Bool → PublicDocument → List IssuedLink → SendDocumentResult
  result_of shown document issued = record {
    document = document;
    invitations = map (invitation_of shown) issued;
  }

  -- The answer, whose tokens are not stored.
  unfoldable pub answer_sent :
      SendFormat
      → String
      → Document × List IssuedLink
      → DocumentRevision
      → List Signer
      → List SignatureField
      → String
      → Handler SendDocumentResult
  answer_sent format organization_id sent revision signers fields record_id = do
    on_idempotency (
        complete_idempotency organization_id record_id 200 (
          format.stored_body
            (result_of false (to_public_document sent.0 (some revision) signers fields) sent.1)))
    pure (result_of true (to_public_document sent.0 (some revision) signers fields) sent.1)

  unfoldable pub send_begun :
      SendFormat → ℕ → SendDocumentInput → String → Begun → Handler SendDocumentResult
  send_begun format session_ttl_ms input organization_id (Begun.replay existing) =
      lift (replay_send_response format existing.response_body)
  send_begun format session_ttl_ms input organization_id (Begun.fresh begun) = do
    found ← gets (λ s.
        find_document
          (record { organization_id = organization_id; document_id = input.document_id })
          s.documents)
    document ← require found (not_found_error (("resource", "document") ∷ []))
    lift (assert_ready_to_send document)
    revision_found ←
        gets (λ s. revision_of organization_id document.current_revision_id s.revisions)
    revision ← require revision_found (validation_error (("reason", "missing_revision") ∷ []))
    signers ← gets (λ s. signers_of_document organization_id document.id s.signers)
    fields ← gets (λ s. fields_of_document organization_id document.id s.fields)
    lift (
        guard (envelope_is_prepared document signers fields)
          (validation_error (("reason", "envelope_incomplete") ∷ [])))
    now ← now_utc rt
    expires_at ← lift (parse_expires_at format input.expires_at now)
    sent ←
        run
          (store_sent session_ttl_ms input organization_id document revision signers now expires_at)
    answer_sent format organization_id sent revision signers fields begun.id

  abbrev pub send_begin : SendDocumentInput → String → String → ℕ → ℕ → BeginInput
  send_begin input organization_id key now ttl_ms = record {
    scope = record {
      organization_id = organization_id;
      principal_id = input.actor.user_id;
      route = send_document_route;
      key = key;
    };
    principal_type = AuditActorType.account_user;
    request =
        prop "documentId" (string input.document_id)
          (prop "expiresAt" (optional_text input.expires_at) end);
    now = now;
    ttl_ms = ttl_ms;
    reuse_in_progress = false;
  }

  unfoldable pub send_document : SendFormat → ℕ → ℕ → SendDocumentInput → Handler SendDocumentResult
  send_document format session_ttl_ms idempotency_ttl_ms input = do
    organization_id ← lift (organization_of_actor (RequestActor.account_user input.actor))
    lift (
        assert_allowed (RequestActor.account_user input.actor) AuthorizationAction.document_send
          (record {
            organization_id = organization_id;
            document_id = some input.document_id;
            signer_id = none;
          }))
    key ← lift (require_idempotency_key input.idempotency_key)
    now ← now_utc rt
    begun ←
        replay_or_begin_idempotency rt (send_begin input organization_id key now idempotency_ttl_ms)
    send_begun format session_ttl_ms input organization_id begun
