-- ===== src/Signing/Checks.antt =====
-- The checks of packages/application/src/signing/load-signer-session.ts that read one row each.
use bug_free_fiesta.Domain.Errors.{
  throw_if, conflict_error, authentication_error, Result, ApplicationError, ◌>>◌,
}
use bug_free_fiesta.Domain.Entities.{Signer, Document, SigningSession}
use bug_free_fiesta.Prelude.{option_str_eq, is_none, ◌&&◌, [], ◌||◌, not, Option, ◌∷◌, Bool, String}
use bug_free_fiesta.Domain.Actor.{SignerActor}
use bug_free_fiesta.Domain.Statuses.{signing_session_status_eq, SigningSessionStatus}
use bug_free_fiesta.Domain.Lifecycle.{is_available_for_signing}

-- `deps.envelopePolicy.requiresAccountAuth`
abbrev pub EnvelopePolicy : Type 0
EnvelopePolicy = Document → Signer → Bool

-- An `accountUserId` that is undefined is none, as one that is null.
pub record LoadSignerSessionInput : Type 0 where
  pub raw_token : String
  pub require_exchanged : Bool
  pub allow_completed : Bool
  pub account_user_id : Option String

pub record LoadedSignerSession : Type 0 where
  pub actor : SignerActor
  pub session : SigningSession
  pub document : Document
  pub signer : Signer

abbrev pub reject_token : ApplicationError
reject_token = authentication_error (("reason", "signing_token") ∷ [])

abbrev pub document_not_signable : ApplicationError
document_not_signable = conflict_error (("reason", "document_not_signable") ∷ [])

abbrev pub has_status : SigningSessionStatus → SigningSession → Bool
has_status status session = signing_session_status_eq session.status status

unfoldable pub check_status : LoadSignerSessionInput → SigningSession → Result (Unit {0})
check_status input found = do
  throw_if
      (has_status SigningSessionStatus.revoked found
        || has_status SigningSessionStatus.expired found)
      reject_token
  throw_if (has_status SigningSessionStatus.completed found && not input.allow_completed)
      reject_token

unfoldable pub check_exchanged : LoadSignerSessionInput → SigningSession → Result (Unit {0})
check_exchanged input found = do
  throw_if (input.require_exchanged && is_none found.consumed_at) reject_token
  throw_if (not input.require_exchanged && not (is_none found.consumed_at)) reject_token

unfoldable pub check_document : SigningSession → Document → Result (Unit {0})
check_document found document =
    throw_if
      (not (has_status SigningSessionStatus.completed found)
        && not (is_available_for_signing document))
      document_not_signable

-- `input.accountUserId === undefined || …`, then `signer.accountUserId !== input.accountUserId`
unfoldable pub check_account :
    EnvelopePolicy → LoadSignerSessionInput → Document → Signer → Result (Unit {0})
check_account requires_account_auth input document signer =
    throw_if
      (requires_account_auth document signer
        && (is_none input.account_user_id
            || is_none signer.account_user_id
            || not (option_str_eq signer.account_user_id input.account_user_id)))
      reject_token

abbrev pub actor_of_session : SigningSession → SignerActor
actor_of_session found = record {
  organization_id = found.organization_id;
  document_id = found.document_id;
  signer_id = found.signer_id;
  session_id = found.id;
}
