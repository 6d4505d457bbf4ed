-- ===== src/Signing/Session.antt =====
-- packages/application/src/signing/load-signer-session.ts and exchange-signing-token.ts.
use bug_free_fiesta.Program.{
  lift, pure, throw, append_event, require, run, write_session, generate_raw_token, now_utc, gets,
  Handler, Runtime, ◌>>◌, ◌>>=◌,
}
use bug_free_fiesta.Store.Sessions.Moves.{SessionUpdate}
use bug_free_fiesta.Domain.Actor.{RequestActor}
use bug_free_fiesta.Domain.Entities.{SigningSession}
use bug_free_fiesta.Prelude.{str_eq, leb, false, if◌then◌else◌, Option, ℕ, String}
use bug_free_fiesta.Signing.Checks.{
  check_exchanged, actor_of_session, check_account, check_status, check_document, reject_token,
  document_not_signable, LoadedSignerSession, LoadSignerSessionInput, EnvelopePolicy,
}
use bug_free_fiesta.Store.Sessions.{find_by_token_hash}
use bug_free_fiesta.Store.Documents.{find_document}
use bug_free_fiesta.Domain.Lifecycle.{is_open_status}
use bug_free_fiesta.Domain.Errors.{guard}
use bug_free_fiesta.Store.Signers.{find_signer}
use bug_free_fiesta.Domain.Statuses.{session_exchanged}
use bug_free_fiesta.Domain.Json.{end, string, prop}

pub record ExchangeSigningTokenInput : Type 0 where
  pub raw_token : String
  pub request_id : String
  pub account_user_id : Option String

-- `expiresAt` is the time itself, not its ISO text.
pub record ExchangeSigningTokenResult : Type 0 where
  pub session_id : String
  pub expires_at : ℕ
  pub raw_session_token : String
  pub raw_csrf_token : String

-- `if (found.expiresAt.getTime() <= now.getTime())`, with the write that it does before it throws.
unfoldable pub check_expiry : SigningSession → ℕ → Handler (Unit {0})
check_expiry found now =
    if leb found.expires_at now
    then (if is_open_status found.status
        then write_session
            (record { organization_id = found.organization_id; session_id = found.id })
            SessionUpdate.expires
          >> throw reject_token
        else throw reject_token)
    else pure tt

module _ (rt : Runtime) (requires_account_auth : EnvelopePolicy) where
  -- The part of `loadSignerSession` after the checks of the session itself.
  unfoldable pub load_parties :
      LoadSignerSessionInput → SigningSession → Handler LoadedSignerSession
  load_parties input found = do
    document_found ← gets (λ s.
        find_document
          (record { organization_id = found.organization_id; document_id = found.document_id })
          s.documents)
    document ← require document_found document_not_signable
    lift (check_document found document)
    signer_found ← gets (λ s.
        find_signer
          (record { organization_id = found.organization_id; signer_id = found.signer_id })
          s.signers)
    signer ← require signer_found reject_token
    lift (guard (str_eq signer.document_id document.id) reject_token)
    lift (check_account requires_account_auth input document signer)
    pure (record {
      actor = actor_of_session found;
      session = found;
      document = document;
      signer = signer;
    })

  unfoldable pub load_signer_session : LoadSignerSessionInput → Handler LoadedSignerSession
  load_signer_session input = do
    row ← gets (λ s. find_by_token_hash (rt.hash_token input.raw_token) s.sessions)
    found ← require row reject_token
    lift (guard (str_eq (rt.hash_token input.raw_token) found.token_hash) reject_token)
    now ← now_utc rt
    lift (check_status input found)
    check_expiry found now
    lift (check_exchanged input found)
    load_parties input found

  unfoldable pub exchange_signing_token :
      ExchangeSigningTokenInput → Handler ExchangeSigningTokenResult
  exchange_signing_token input = do
    loaded ← load_signer_session (record {
      raw_token = input.raw_token;
      require_exchanged = false;
      allow_completed = false;
      account_user_id = input.account_user_id;
    })
    now ← now_utc rt
    raw_session_token ← generate_raw_token rt
    raw_csrf_token ← generate_raw_token rt
    rotated ← run (do
      session ←
          write_session
            (record {
              organization_id = loaded.session.organization_id;
              session_id = loaded.session.id;
            })
            (SessionUpdate.rotates loaded.session.version (rt.hash_token raw_session_token)
              (rt.hash_token raw_csrf_token) now)
      append_event rt (RequestActor.signer loaded.actor) loaded.session.organization_id
          loaded.session.document_id session_exchanged now
          (prop "sessionId" (string session.id) (prop "signerId" (string loaded.signer.id) end))
          input.request_id
      pure session)
    pure (record {
      session_id = rotated.id;
      expires_at = rotated.expires_at;
      raw_session_token = raw_session_token;
      raw_csrf_token = raw_csrf_token;
    })
