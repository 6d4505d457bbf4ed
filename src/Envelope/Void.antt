-- ===== src/Envelope/Void.antt =====
-- packages/application/src/documents/void-document.ts
pub mod Replay
pub mod Closed
pub mod Voided
use bug_free_fiesta.Program.{
  run, now_utc, append_event, on_idempotency, write_session, require, ◌>>◌, pure, on_documents,
  gets, ◌>>=◌, lift, Handler, Runtime,
}
use bug_free_fiesta.Prelude.{false, none, some, [], ◌∷◌, if◌then◌else◌, List, ℕ, String, Option}
use bug_free_fiesta.Envelope.Public.{to_public_document, PublicDocument, BodyFormat}
use bug_free_fiesta.Domain.Actor.{
  AuthorizationAction, assert_allowed, RequestActor, organization_of_actor, AccountUserActor,
}
use bug_free_fiesta.Domain.Errors.{
  conflict_error, not_found_error, ok, err, Result, integrity_error, ApplicationError,
}
use bug_free_fiesta.Envelope.Requests.{
  replay_or_begin_idempotency, require_idempotency_key, fresh, BeginInput, Begun,
}
use bug_free_fiesta.Domain.Entities.{DocumentRevision, SigningSession, Document, Payload}
use bug_free_fiesta.Domain.Statuses.{
  document_state_text, document_voided, DocumentState, AuditActorType, document_state_eq,
}
use bug_free_fiesta.Store.Documents.{mark_voided, bump_document, find_revision, find_document}
use bug_free_fiesta.Store.Signers.{fields_of_document, signers_of_document}
use bug_free_fiesta.Domain.Lifecycle.{assert_document_transition, is_open_status}
use bug_free_fiesta.Domain.Json.{strings, array, end, string, prop}
use bug_free_fiesta.Store.Sessions.{sessions_of_document}
use bug_free_fiesta.Store.Ledger.{complete_idempotency}
use bug_free_fiesta.Store.Sessions.Moves.{SessionUpdate}

abbrev void_document_route : String
void_document_route = "POST /organizations/:organizationId/documents/:documentId/void"

pub record VoidDocumentInput : Type 0 where
  pub actor : AccountUserActor
  pub document_id : String
  pub idempotency_key : String
  pub request_id : String

abbrev pub missing_body : ApplicationError
missing_body = integrity_error (("reason", "idempotency_replay_missing_body") ∷ [])

abbrev voided_only : PublicDocument → Result PublicDocument
voided_only parsed =
    if document_state_eq parsed.state DocumentState.voided
    then ok (record parsed { state = DocumentState.voided })
    else err (conflict_error (("reason", "document_not_voidable") ∷ []))

abbrev parsed_only : Option PublicDocument → Result PublicDocument
parsed_only none = err missing_body
parsed_only (some parsed) = voided_only parsed

unfoldable pub replay_void_response : BodyFormat → Option Payload → Result PublicDocument
replay_void_response format none = err missing_body
replay_void_response format (some body) = parsed_only (format.safe_parse body)

-- The loop over the sessions of the document, with the ids of those it revoked.
unfoldable pub revoke_listed : String → ℕ → List SigningSession → Handler (List String)
revoke_listed organization_id now [] = pure []
revoke_listed organization_id now (session ∷ rest) =
    if is_open_status session.status
    then (do
      write_session (record { organization_id = organization_id; session_id = session.id })
          (SessionUpdate.revokes now)
      ids ← revoke_listed organization_id now rest
      pure (session.id ∷ ids))
    else revoke_listed organization_id now rest

-- `revisions.findById`, where the document has a revision
abbrev pub revision_of : String → Option String → List DocumentRevision → Option DocumentRevision
revision_of organization_id none rows = none
revision_of organization_id (some revision_id) rows = find_revision organization_id revision_id rows

module _ (rt : Runtime) where
  -- The writes of a void.
  unfoldable pub store_void : VoidDocumentInput → String → Document → ℕ → Handler Document
  store_void input organization_id document now = do
    next ← on_documents (
        bump_document (record { organization_id = organization_id; document_id = document.id })
          document.version mark_voided)
    listed ← gets (λ s. sessions_of_document organization_id document.id s.sessions)
    revoked ← revoke_listed organization_id now listed
    append_event rt (RequestActor.account_user input.actor) organization_id document.id
        document_voided now
        (prop "previousState" (string (document_state_text document.state))
          (prop "sessionIds" (array (strings revoked)) end))
        input.request_id
    pure next

  -- The body of the answer, as it is stored with the idempotency record.
  unfoldable pub answer_voided : BodyFormat → String → Document → String → Handler PublicDocument
  answer_voided format organization_id voided record_id = do
    revision ← gets (λ s. revision_of organization_id voided.current_revision_id s.revisions)
    signers ← gets (λ s. signers_of_document organization_id voided.id s.signers)
    fields ← gets (λ s. fields_of_document organization_id voided.id s.fields)
    on_idempotency (
        complete_idempotency organization_id record_id 200
          (format.stored_body (to_public_document voided revision signers fields)))
    pure (to_public_document voided revision signers fields)

  -- The command, once the idempotency record is begun.
  unfoldable pub void_begun :
      BodyFormat → VoidDocumentInput → String → Begun → Handler PublicDocument
  void_begun format input organization_id (Begun.replay existing) =
      lift (replay_void_response format existing.response_body)
  void_begun format input organization_id (fresh begun) = do
    found ← gets (λ s.
        find_document
          (record { organization_id = organization_id; document_id = input.document_id })
          s.documents)
    document ← require found (not_found_error (("resource", "document") ∷ []))
    lift (assert_document_transition document.state DocumentState.voided)
    now ← now_utc rt
    voided ← run (store_void input organization_id document now)
    answer_voided format organization_id voided begun.id

  abbrev pub void_begin : VoidDocumentInput → String → String → ℕ → ℕ → BeginInput
  void_begin input organization_id key now ttl_ms = record {
    scope = record {
      organization_id = organization_id;
      principal_id = input.actor.user_id;
      route = void_document_route;
      key = key;
    };
    principal_type = AuditActorType.account_user;
    request = prop "documentId" (string input.document_id) end;
    now = now;
    ttl_ms = ttl_ms;
    reuse_in_progress = false;
  }

  unfoldable pub void_document : BodyFormat → ℕ → VoidDocumentInput → Handler PublicDocument
  void_document format idempotency_ttl_ms input = do
    organization_id ← lift (organization_of_actor (RequestActor.account_user input.actor))
    lift (
        assert_allowed (RequestActor.account_user input.actor) AuthorizationAction.document_void
          (record {
            organization_id = organization_id;
            document_id = some input.document_id;
            signer_id = none;
          }))
    key ← lift (require_idempotency_key input.idempotency_key)
    now ← now_utc rt
    begun ←
        replay_or_begin_idempotency rt (void_begin input organization_id key now idempotency_ttl_ms)
    void_begun format input organization_id begun
