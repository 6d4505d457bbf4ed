-- ===== src/Signing/Resolve.antt =====
-- `createResolveSigningSession` of packages/application/src/documents/signing-sessions.ts: what a
-- signing link shows before it is exchanged.
use bug_free_fiesta.Store.Signers.{fields_of_document}
use bug_free_fiesta.Program.{
  now_utc, lift, pure, write_session, require, gets, Handler, Runtime, ◌>>◌, ◌>>=◌,
}
use bug_free_fiesta.Store.Sessions.Moves.{SessionUpdate}
use bug_free_fiesta.Domain.Statuses.{SigningMode, SignatureFieldType, SigningSessionStatus}
use bug_free_fiesta.Domain.Entities.{SignatureField, SigningSession}
use bug_free_fiesta.Prelude.{str_eq, keep_if, map, List, if◌then◌else◌, ℕ, Bool, String}
use bug_free_fiesta.Store.Sessions.{find_by_token_hash}
use bug_free_fiesta.Signing.Checks.{document_not_signable, reject_token, has_status}
use bug_free_fiesta.Domain.Errors.{guard}
use bug_free_fiesta.Domain.Lifecycle.{is_available_for_signing, is_open_status}
use bug_free_fiesta.Signing.Session.{check_expiry}
use bug_free_fiesta.Store.Documents.{find_document}

pub record FieldView : Type 0 where
  pub field_id : String
  pub type : SignatureFieldType
  pub page_number : ℕ
  pub required : Bool

-- `sessionStatus` is `'active'` or `'issued'`, and is the Boolean `session_is_active` here.
pub record SignerSessionView : Type 0 where
  pub document_id : String
  pub signer_id : String
  pub session_id : String
  pub session_is_active : Bool
  pub title : String
  pub signing_mode : SigningMode
  pub expires_at : ℕ
  pub fields : List FieldView

abbrev view_of_field : SignatureField → FieldView
view_of_field field = record {
  field_id = field.id;
  type = field.type;
  page_number = field.page_number;
  required = field.required;
}

-- `session.status === 'issued' ? await markPresented(…) : session`
unfoldable pub present_if_issued : SigningSession → ℕ → Handler SigningSession
present_if_issued session now =
    if has_status SigningSessionStatus.issued session
    then write_session
        (record { organization_id = session.organization_id; session_id = session.id })
        (SessionUpdate.presents now)
    else pure session

module _ (rt : Runtime) where
  unfoldable pub resolve_signing_session : String → Handler SignerSessionView
  resolve_signing_session raw_token = do
    row ← gets (λ s. find_by_token_hash (rt.hash_token raw_token) s.sessions)
    session ← require row reject_token
    lift (guard (is_open_status session.status) reject_token)
    now ← now_utc rt
    check_expiry session now
    presented ← present_if_issued session now
    document_found ← gets (λ s.
        find_document
          (record { organization_id = session.organization_id; document_id = session.document_id })
          s.documents)
    document ← require document_found document_not_signable
    lift (guard (is_available_for_signing document) document_not_signable)
    fields ← gets (λ s. fields_of_document session.organization_id session.document_id s.fields)
    pure (record {
      document_id = session.document_id;
      signer_id = session.signer_id;
      session_id = presented.id;
      session_is_active = has_status SigningSessionStatus.active presented;
      title = document.title;
      signing_mode = document.signing_mode;
      expires_at = session.expires_at;
      fields =
          map view_of_field (keep_if (λ field. str_eq field.signer_id session.signer_id) fields);
    })
