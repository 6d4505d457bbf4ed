-- ===== src/Signing/Links.antt =====
-- packages/application/src/documents/signing-sessions.ts: the sender's rotation and revocation of a
-- signing link. The notifier is not one of the repositories, and its message is left out.
use bug_free_fiesta.Program.{
  on_sessions, require, gets, append_event, run, next_id, write_session, generate_raw_token, pure,
  now_utc, lift, Handler, Runtime, ◌>>◌, ◌>>=◌,
}
use bug_free_fiesta.Store.Sessions.Moves.{SessionUpdate}
use bug_free_fiesta.Domain.Actor.{
  assert_allowed, organization_of_actor, AccountUserActor, RequestActor, AuthorizationAction,
}
use bug_free_fiesta.Domain.Errors.{guard, not_found_error, ApplicationError}
use bug_free_fiesta.Prelude.{str_eq, ◌+◌, some, none, List, [], ◌∷◌, ℕ, String}
use bug_free_fiesta.Domain.Entities.{SigningSession, Signer, Document}
use bug_free_fiesta.Store.Sessions.{create_session, find_session, open_sessions_of_signer}
use bug_free_fiesta.Domain.Statuses.{session_issued, SigningSessionStatus, session_revoked}
use bug_free_fiesta.Store.Documents.{find_document}
use bug_free_fiesta.Domain.Json.{end, string, prop}
use bug_free_fiesta.Signing.Checks.{document_not_signable}
use bug_free_fiesta.Domain.Lifecycle.{is_available_for_signing}
use bug_free_fiesta.Store.Signers.{find_signer}

pub record RotateSigningSessionInput : Type 0 where
  pub actor : AccountUserActor
  pub document_id : String
  pub signer_id : String
  pub request_id : String

pub record RotateSigningSessionResult : Type 0 where
  pub signer_id : String
  pub session_id : String
  pub expires_at : ℕ
  pub token : String

pub record RevokeSigningSessionInput : Type 0 where
  pub actor : AccountUserActor
  pub document_id : String
  pub session_id : String
  pub request_id : String

abbrev signer_not_found : ApplicationError
signer_not_found = not_found_error (("resource", "signer") ∷ [])

abbrev session_not_found : ApplicationError
session_not_found = not_found_error (("resource", "signing_session") ∷ [])

module _ (rt : Runtime) where
  -- The loop over the open sessions of the signer.
  unfoldable pub revoke_rotated :
      RotateSigningSessionInput
      → String
      → Document
      → Signer
      → ℕ
      → List SigningSession
      → Handler (Unit {0})
  revoke_rotated input organization_id document signer now [] = pure tt
  revoke_rotated input organization_id document signer now (session ∷ rest) = do
    write_session (record { organization_id = organization_id; session_id = session.id })
        (SessionUpdate.revokes now)
    append_event rt (RequestActor.account_user input.actor) organization_id document.id
        session_revoked now
        (prop "signerId" (string signer.id)
          (prop "sessionId" (string session.id) (prop "reason" (string "rotated") end)))
        input.request_id
    revoke_rotated input organization_id document signer now rest

  abbrev issued_session :
      String → String → Document → Signer → String → ℕ → ℕ → String → SigningSession
  issued_session organization_id session_id document signer token_hash now expires_at request_id =
      record {
        id = session_id;
        organization_id = organization_id;
        document_id = document.id;
        signer_id = signer.id;
        token_hash = token_hash;
        csrf_token_hash = none;
        status = SigningSessionStatus.issued;
        expires_at = expires_at;
        consumed_at = none;
        completed_at = none;
        revoked_at = none;
        presentation_attempt_count = 0;
        failed_presentation_count = 0;
        last_presented_at = none;
        request_id = some request_id;
        version = 1;
        created_at = now;
        updated_at = now;
      }

  -- The writes of a rotation.
  unfoldable pub store_rotation :
      ℕ
      → RotateSigningSessionInput
      → String
      → Document
      → Signer
      → Handler RotateSigningSessionResult
  store_rotation session_ttl_ms input organization_id document signer = do
    now ← now_utc rt
    raw_token ← generate_raw_token rt
    session_id ← next_id rt
    run (do
      opened ← gets (λ s. open_sessions_of_signer organization_id signer.id s.sessions)
      revoke_rotated input organization_id document signer now opened
      on_sessions (
          create_session organization_id (
            issued_session organization_id session_id document signer (rt.hash_token raw_token) now
              (now + session_ttl_ms) input.request_id))
      append_event rt (RequestActor.account_user input.actor) organization_id document.id
          session_issued now
          (prop "signerId" (string signer.id)
            (prop "sessionId" (string session_id) (prop "reason" (string "rotated") end)))
          input.request_id)
    pure (record {
      signer_id = signer.id;
      session_id = session_id;
      expires_at = now + session_ttl_ms;
      token = raw_token;
    })

  unfoldable pub rotate_signing_session :
      ℕ → RotateSigningSessionInput → Handler RotateSigningSessionResult
  rotate_signing_session session_ttl_ms input = do
    organization_id ← lift (organization_of_actor (RequestActor.account_user input.actor))
    lift (
        assert_allowed (RequestActor.account_user input.actor) AuthorizationAction.document_send
          (record {
            organization_id = organization_id;
            document_id = some input.document_id;
            signer_id = some input.signer_id;
          }))
    document_found ← gets (λ s.
        find_document
          (record { organization_id = organization_id; document_id = input.document_id })
          s.documents)
    document ← require document_found document_not_signable
    lift (guard (is_available_for_signing document) document_not_signable)
    signer_found ← gets (λ s.
        find_signer (record { organization_id = organization_id; signer_id = input.signer_id })
          s.signers)
    signer ← require signer_found signer_not_found
    lift (guard (str_eq signer.document_id document.id) signer_not_found)
    store_rotation session_ttl_ms input organization_id document signer

  unfoldable pub revoke_signing_session : RevokeSigningSessionInput → Handler String
  revoke_signing_session input = do
    organization_id ← lift (organization_of_actor (RequestActor.account_user input.actor))
    lift (
        assert_allowed (RequestActor.account_user input.actor) AuthorizationAction.document_send
          (record {
            organization_id = organization_id;
            document_id = some input.document_id;
            signer_id = none;
          }))
    document_found ← gets (λ s.
        find_document
          (record { organization_id = organization_id; document_id = input.document_id })
          s.documents)
    document ← require document_found (not_found_error (("resource", "document") ∷ []))
    session_found ← gets (λ s.
        find_session (record { organization_id = organization_id; session_id = input.session_id })
          s.sessions)
    session ← require session_found session_not_found
    lift (guard (str_eq session.document_id document.id) session_not_found)
    now ← now_utc rt
    run (do
      write_session (record { organization_id = organization_id; session_id = session.id })
          (SessionUpdate.revokes now)
      append_event rt (RequestActor.account_user input.actor) organization_id document.id
          session_revoked now
          (prop "signerId" (string session.signer_id) (prop "sessionId" (string session.id) end))
          input.request_id)
    pure session.id
