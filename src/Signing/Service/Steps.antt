-- ===== src/Signing/Service/Steps.antt =====
-- What holds after any sequence of requests.
use bug_free_fiesta.Program.Sound.{Sound}
use bug_free_fiesta.Signing.Service.{
  InkSupport, SendFormat, BodyFormat, ◌∷◌, Repositories, List, ℕ, ConsentCatalog, EnvelopePolicy,
  Runtime, serve, serve_one, Request,
}
use bug_free_fiesta.Domain.Entities.{AuditEvent}
use bug_free_fiesta.Signing.Sound.{
  resolve_signing_session-Keeps, revoke_signing_session-Keeps, rotate_signing_session-Keeps,
  decline_to_sign-Keeps, record_signer_consent-Keeps, record_signer_viewed-Keeps,
  exchange_signing_token-Keeps,
}
use bug_free_fiesta.Store.Sessions.OneOpen.{OneOpen}
use bug_free_fiesta.Store.Ledger.{ChainKey}
use bug_free_fiesta.Prelude.{append-nil, sym, []}
use bug_free_fiesta.Store.Ledger.Chain.{IsChain}
use bug_free_fiesta.Envelope.Sound.{
  send_document-Keeps, replace_document_fields-Keeps, replace_document_signers-Keeps,
  void_document-Keeps,
}
use bug_free_fiesta.Signing.Complete.Sound.{complete_signing-Keeps}

module _ (rt : Runtime) (auth : EnvelopePolicy) (catalog : ConsentCatalog)
    (session_ttl_ms idempotency_ttl_ms : ℕ) (format : BodyFormat) (send_format : SendFormat)
    (support : InkSupport) (log : List AuditEvent) where
  serve_one-Sound :
      (request : Request) (s : Repositories)
      → Sound rt log s
      → Sound rt log (
          serve_one rt auth catalog session_ttl_ms idempotency_ttl_ms format send_format support
            request s)
  unfolding serve_one
  serve_one-Sound (Request.exchange input) s h =
      (exchange_signing_token-Keeps rt auth log input).at s h
  serve_one-Sound (Request.view input) s h = (record_signer_viewed-Keeps rt auth log input).at s h
  serve_one-Sound (Request.consent input) s h =
      (record_signer_consent-Keeps rt auth log catalog input).at s h
  serve_one-Sound (Request.decline reason input) s h =
      (decline_to_sign-Keeps rt auth log reason input).at s h
  serve_one-Sound (Request.rotate input) s h =
      (rotate_signing_session-Keeps rt auth log session_ttl_ms input).at s h
  serve_one-Sound (Request.revoke input) s h =
      (revoke_signing_session-Keeps rt auth log input).at s h
  serve_one-Sound (Request.resolve raw_token) s h =
      (resolve_signing_session-Keeps rt auth log raw_token).at s h
  serve_one-Sound (Request.voids input) s h =
      (void_document-Keeps rt log format idempotency_ttl_ms input).at s h
  serve_one-Sound (Request.replace_signers input) s h =
      (replace_document_signers-Keeps rt log input).at s h
  serve_one-Sound (Request.replace_fields input) s h =
      (replace_document_fields-Keeps rt log input).at s h
  serve_one-Sound (Request.send input) s h =
      (send_document-Keeps rt log send_format session_ttl_ms idempotency_ttl_ms input).at s h
  serve_one-Sound (Request.complete input) s h =
      (complete_signing-Keeps rt log auth support input).at s h

  serve-Sound_from :
      (requests : List Request) (s : Repositories)
      → Sound rt log s
      → Sound rt log (
          serve rt auth catalog session_ttl_ms idempotency_ttl_ms format send_format support
            requests s)
  unfolding serve
  serve-Sound_from [] s h = h
  serve-Sound_from (request ∷ requests) s h =
      serve-Sound_from requests
        (serve_one rt auth catalog session_ttl_ms idempotency_ttl_ms format send_format support
          request s)
        (serve_one-Sound request s h)

-- From repositories where no signer has two open sessions and the audit events of every document are a
-- hash chain, any sequence of requests, answered or refused at any point, leaves such repositories, and
-- an audit log that the earlier one begins.
pub serve-Sound :
    (rt : Runtime) (auth : EnvelopePolicy) (catalog : ConsentCatalog)
    (session_ttl_ms idempotency_ttl_ms : ℕ) (format : BodyFormat) (send_format : SendFormat)
    (support : InkSupport) (requests : List Request) (s : Repositories)
    → OneOpen s.sessions
    → ((key : ChainKey) → IsChain rt.iso rt.sha256_json key s.audit_events)
    → Sound rt s.audit_events (
        serve rt auth catalog session_ttl_ms idempotency_ttl_ms format send_format support requests
          s)
serve-Sound rt auth catalog session_ttl_ms idempotency_ttl_ms format send_format support requests s
      one_open chained =
    serve-Sound_from rt auth catalog session_ttl_ms idempotency_ttl_ms format send_format support
      s.audit_events requests s
      (record {
        one_open = one_open;
        chained = chained;
        extends = ([], sym (append-nil s.audit_events));
      })
