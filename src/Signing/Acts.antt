-- ===== src/Signing/Acts.antt =====
-- packages/application/src/signing/signer-mutations.ts. The reason of a decline is given as
-- `sanitizeDeclineReason` returns it.
use bug_free_fiesta.Program.{
  on_documents, require, append_event, on_consents, write_session, on_signers, next_id, run, gets,
  now_utc, pure, lift, Handler, Runtime, ◌>>◌, ◌>>=◌,
}
use bug_free_fiesta.Store.Sessions.Moves.{SessionUpdate}
use bug_free_fiesta.Domain.Actor.{
  assert_allowed, AuthorizationResource, SignerActor, RequestActor, AuthorizationAction,
}
use bug_free_fiesta.Prelude.{
  str_eq, [], false, ◌∷◌, none, true, if◌then◌else◌, some, List, ℕ, Bool, Option, String,
}
use bug_free_fiesta.Signing.Checks.{EnvelopePolicy, LoadedSignerSession}
use bug_free_fiesta.Store.Sessions.{sessions_of_document, SessionKey}
use bug_free_fiesta.Domain.Json.{end, prop, string, Json}
use bug_free_fiesta.Domain.Entities.{SigningSession, ConsentRecord}
use bug_free_fiesta.Signing.Session.{load_signer_session}
use bug_free_fiesta.Store.Signers.{
  consent_of_session, decline_row, create_consent, update_signer, signers_of_document,
}
use bug_free_fiesta.Domain.Errors.{conflict_error, validation_error, guard}
use bug_free_fiesta.Domain.Statuses.{
  signer_declined, DocumentState, document_viewed, consent_recorded, SignerStatus, signer_status_eq,
}
use bug_free_fiesta.Domain.SigningMode.{is_pending, can_signer_act_now}
use bug_free_fiesta.Domain.Lifecycle.{assert_document_transition, is_open_status}
use bug_free_fiesta.Store.Documents.{mark_declined, bump_document}

pub record ConsentDisclosure : Type 0 where
  pub copy_id : String

-- `ConsentDisclosureCatalog`
pub record ConsentCatalog : Type 0 where
  pub find_by_copy_id : String → Option ConsentDisclosure
  pub current : ConsentDisclosure

pub record SignerRequest : Type 0 where
  pub raw_token : String
  pub request_id : String
  pub account_user_id : Option String

pub record RecordSignerConsentInput : Type 0 where
  pub raw_token : String
  pub copy_id : String
  pub accepted : Bool
  pub request_id : String
  pub untrusted_client_ip : Option String
  pub untrusted_user_agent : Option String
  pub account_user_id : Option String

pub record RecordSignerConsentResult : Type 0 where
  pub consent_id : String
  pub copy_id : String
  pub accepted_at : ℕ

abbrev session_key : LoadedSignerSession → SessionKey
session_key loaded = record {
  organization_id = loaded.session.organization_id;
  session_id = loaded.session.id;
}

abbrev signer_resource : SignerActor → AuthorizationResource
signer_resource actor = record {
  organization_id = actor.organization_id;
  document_id = some actor.document_id;
  signer_id = some actor.signer_id;
}

abbrev optional_string : Option String → Json
optional_string none = Json.null
optional_string (some s) = string s

-- The body of the loop that revokes the sessions of a document, and the loop.
unfoldable pub revoke_if_open : String → ℕ → SigningSession → Handler (Unit {0})
revoke_if_open organization_id now session =
    if is_open_status session.status
    then (do
      write_session (record { organization_id = organization_id; session_id = session.id })
          (SessionUpdate.revokes now)
      pure tt)
    else pure tt

unfoldable pub revoke_open : String → ℕ → List SigningSession → Handler (Unit {0})
revoke_open organization_id now [] = pure tt
revoke_open organization_id now (session ∷ rest) = do
  revoke_if_open organization_id now session
  revoke_open organization_id now rest

module _ (rt : Runtime) (requires_account_auth : EnvelopePolicy) where
  -- The session of the link, for an actor that may act on it.
  unfoldable pub load_acting : String → Option String → Handler LoadedSignerSession
  load_acting raw_token account_user_id = do
    loaded ← load_signer_session rt requires_account_auth (record {
      raw_token = raw_token;
      require_exchanged = true;
      allow_completed = false;
      account_user_id = account_user_id;
    })
    lift (
        assert_allowed (RequestActor.signer loaded.actor) AuthorizationAction.signing_session_act
          (signer_resource loaded.actor))
    pure loaded

  unfoldable pub record_signer_viewed : SignerRequest → Handler (Unit {0})
  record_signer_viewed input = do
    loaded ← load_acting input.raw_token input.account_user_id
    now ← now_utc rt
    run (do
      write_session (session_key loaded) (SessionUpdate.presents now)
      append_event rt (RequestActor.signer loaded.actor) loaded.session.organization_id
          loaded.document.id document_viewed now
          (prop "sessionId" (string loaded.session.id)
            (prop "signerId" (string loaded.signer.id) end))
          input.request_id
      pure tt)

  -- The first consent of a session, and its event.
  unfoldable pub store_consent :
      RecordSignerConsentInput
      → ConsentDisclosure
      → LoadedSignerSession
      → Handler RecordSignerConsentResult
  store_consent input disclosure loaded = do
    now ← now_utc rt
    consent_id ← next_id rt
    run (do
      on_consents (
          create_consent loaded.actor.organization_id (record {
            id = consent_id;
            organization_id = loaded.actor.organization_id;
            document_id = loaded.document.id;
            signer_id = loaded.signer.id;
            session_id = loaded.session.id;
            consent_copy_id = disclosure.copy_id;
            accepted_at = now;
            request_id = some input.request_id;
            untrusted_client_ip = input.untrusted_client_ip;
            untrusted_user_agent = input.untrusted_user_agent;
            created_at = now;
          }))
      append_event rt (RequestActor.signer loaded.actor) loaded.actor.organization_id
          loaded.document.id consent_recorded now
          (prop "sessionId" (string loaded.session.id)
            (prop "consentCopyId" (string disclosure.copy_id) end))
          input.request_id)
    pure (record { consent_id = consent_id; copy_id = disclosure.copy_id; accepted_at = now })

  -- A session that has a consent answers with it.
  unfoldable pub consent_once :
      RecordSignerConsentInput
      → ConsentDisclosure
      → LoadedSignerSession
      → Option ConsentRecord
      → Handler RecordSignerConsentResult
  consent_once input disclosure loaded (some existing) = pure (record {
    consent_id = existing.id;
    copy_id = existing.consent_copy_id;
    accepted_at = existing.accepted_at;
  })
  consent_once input disclosure loaded none = store_consent input disclosure loaded

  unfoldable pub record_signer_consent :
      ConsentCatalog → RecordSignerConsentInput → Handler RecordSignerConsentResult
  record_signer_consent catalog input = do
    lift (
        guard input.accepted
          (validation_error (("field", "accepted") ∷ ("reason", "explicit_consent_required") ∷ [])))
    disclosure ←
        require (catalog.find_by_copy_id input.copy_id)
          (validation_error (("field", "copyId") ∷ ("reason", "unknown_disclosure") ∷ []))
    lift (
        guard (str_eq disclosure.copy_id catalog.current.copy_id)
          (validation_error (("field", "copyId") ∷ ("reason", "stale_disclosure") ∷ [])))
    loaded ← load_acting input.raw_token input.account_user_id
    existing ←
        gets (λ s. consent_of_session loaded.actor.organization_id loaded.session.id s.consents)
    consent_once input disclosure loaded existing

  -- The end of a decline: the sessions of the document that are open, and the event.
  unfoldable pub finish_decline :
      String → Option String → LoadedSignerSession → ℕ → Handler (Unit {0})
  finish_decline request_id reason loaded now = do
    opened ←
        gets (λ s. sessions_of_document loaded.actor.organization_id loaded.document.id s.sessions)
    revoke_open loaded.actor.organization_id now opened
    append_event rt (RequestActor.signer loaded.actor) loaded.actor.organization_id
        loaded.document.id signer_declined now
        (prop "sessionId" (string loaded.session.id)
          (prop "signerId" (string loaded.signer.id) (prop "reason" (optional_string reason) end)))
        request_id
    pure tt

  -- The writes of a decline, in the order of the code.
  unfoldable pub store_decline : String → Option String → LoadedSignerSession → Handler (Unit {0})
  store_decline request_id reason loaded = do
    now ← now_utc rt
    run (do
      on_signers (
          update_signer
            (record {
              organization_id = loaded.actor.organization_id;
              signer_id = loaded.signer.id;
            })
            (decline_row loaded.signer.version now))
      on_documents (
          bump_document
            (record {
              organization_id = loaded.actor.organization_id;
              document_id = loaded.document.id;
            })
            loaded.document.version mark_declined)
      finish_decline request_id reason loaded now)

  -- A signer that has declined is answered with nothing written.
  unfoldable pub decline_loaded : String → Option String → LoadedSignerSession → Handler (Unit {0})
  decline_loaded request_id reason loaded =
      if signer_status_eq loaded.signer.status SignerStatus.declined then pure tt else (do
        lift (
            guard (is_pending loaded.signer)
              (conflict_error (("reason", "signer_not_pending") ∷ [])))
        lift (assert_document_transition loaded.document.state DocumentState.declined)
        store_decline request_id reason loaded)

  unfoldable pub decline_to_sign : Option String → SignerRequest → Handler (Unit {0})
  decline_to_sign reason input = do
    loaded ← load_acting input.raw_token input.account_user_id
    roster ←
        gets (λ s. signers_of_document loaded.actor.organization_id loaded.document.id s.signers)
    lift (
        guard (can_signer_act_now loaded.document.signing_mode loaded.signer roster)
          (conflict_error (("reason", "signer_not_in_turn") ∷ [])))
    decline_loaded input.request_id reason loaded
