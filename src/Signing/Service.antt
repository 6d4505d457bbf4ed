-- ===== src/Signing/Service.antt =====
-- The requests of signers and senders, served one after another.
pub mod Steps
use bug_free_fiesta.Program.{left, Repositories, Runtime, ◌>>◌}
use bug_free_fiesta.Signing.Session.{exchange_signing_token, ExchangeSigningTokenInput}
use bug_free_fiesta.Signing.Checks.{EnvelopePolicy}
use bug_free_fiesta.Signing.Acts.{
  decline_to_sign, record_signer_consent, record_signer_viewed, RecordSignerConsentInput,
  ConsentCatalog, SignerRequest,
}
use bug_free_fiesta.Prelude.{[], ◌∷◌, List, String, ℕ, Option}
use bug_free_fiesta.Signing.Links.{
  revoke_signing_session, rotate_signing_session, RevokeSigningSessionInput,
  RotateSigningSessionInput,
}
use bug_free_fiesta.Signing.Resolve.{resolve_signing_session}
use bug_free_fiesta.Store.Signers.{fields_of_document}
use bug_free_fiesta.Envelope.Public.{BodyFormat}
use bug_free_fiesta.Envelope.Void.{void_document, VoidDocumentInput}
use bug_free_fiesta.Envelope.Send.{send_document, SendDocumentInput, SendFormat}
use bug_free_fiesta.Envelope.Prepare.{
  replace_document_fields, replace_document_signers, ReplaceFieldsInput, ReplaceSignersInput,
}
use bug_free_fiesta.Signing.Complete.{complete_signing, CompleteSigningInput, InkSupport}

-- A request for one of the handlers of packages/application/src/signing and of
-- packages/application/src/documents.
pub data Request : Type 0 where
  exchange : ExchangeSigningTokenInput → Request
  view : SignerRequest → Request
  consent : RecordSignerConsentInput → Request
  decline : Option String → SignerRequest → Request
  rotate : RotateSigningSessionInput → Request
  revoke : RevokeSigningSessionInput → Request
  resolve : String → Request
  voids : VoidDocumentInput → Request
  replace_signers : ReplaceSignersInput → Request
  replace_fields : ReplaceFieldsInput → Request
  send : SendDocumentInput → Request
  complete : CompleteSigningInput → Request

module _ (rt : Runtime) (auth : EnvelopePolicy) (catalog : ConsentCatalog)
    (session_ttl_ms idempotency_ttl_ms : ℕ) (format : BodyFormat) (send_format : SendFormat)
    (support : InkSupport) where
  -- What a request leaves, answered or refused.
  unfoldable pub serve_one : Request → Repositories → Repositories
  serve_one (exchange input) s = left (exchange_signing_token rt auth input s)
  serve_one (view input) s = left (record_signer_viewed rt auth input s)
  serve_one (consent input) s = left (record_signer_consent rt auth catalog input s)
  serve_one (decline reason input) s = left (decline_to_sign rt auth reason input s)
  serve_one (rotate input) s = left (rotate_signing_session rt session_ttl_ms input s)
  serve_one (revoke input) s = left (revoke_signing_session rt input s)
  serve_one (resolve raw_token) s = left (resolve_signing_session rt raw_token s)
  serve_one (voids input) s = left (void_document rt format idempotency_ttl_ms input s)
  serve_one (replace_signers input) s = left (replace_document_signers rt input s)
  serve_one (replace_fields input) s = left (replace_document_fields rt input s)
  serve_one (send input) s =
      left (send_document rt send_format session_ttl_ms idempotency_ttl_ms input s)
  serve_one (complete input) s = left (complete_signing rt auth support input s)

  unfoldable pub serve : List Request → Repositories → Repositories
  serve [] s = s
  serve (request ∷ requests) s = serve requests (serve_one request s)
