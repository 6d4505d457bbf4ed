-- ===== src/Examples/Requests.antt =====
-- Requests on the example rows.
use bug_free_fiesta.Domain.Canonical.{to_canonical_audit_event}
use bug_free_fiesta.Examples.Parties.{shop, runtime, no_account, lease, tenant, tenant_session}
use bug_free_fiesta.Signing.Service.{serve, Request}
use bug_free_fiesta.Signing.Acts.{
  revoke_if_open, revoke_open, load_acting, finish_decline, store_decline, decline_loaded,
  decline_to_sign, ConsentCatalog, SignerRequest,
}
use bug_free_fiesta.Signing.Checks.{
  check_account, check_document, check_exchanged, check_status, LoadedSignerSession,
  LoadSignerSessionInput,
}
use bug_free_fiesta.Store.Ledger.{latest, find_latest, append_audit, events_of_document}
use bug_free_fiesta.Signing.Session.{check_expiry, load_parties, load_signer_session}
use bug_free_fiesta.Store.Sessions.{
  revoke_row, has_session_key, update_session, sessions_of_document, find_by_token_hash,
  is_open_for,
}
use bug_free_fiesta.Prelude.{◌≡◌, refl, some, ◌∷◌, [], false, none, true}
use bug_free_fiesta.Program.{
  on_audit_log, next_id, append_event, on_sessions, write_session, on_documents, on_signers, left,
  Repositories, now_utc, pure, lift, require, gets, ◌>>=◌,
}
use bug_free_fiesta.Program.Sound.{Sound}
use bug_free_fiesta.Signing.Service.Steps.{serve-Sound}
use bug_free_fiesta.Store.Rows.{replace_row, update_row, find_row}
use bug_free_fiesta.Store.Documents.{
  mark_declined, bump_current, bump_document, has_document_key, find_document,
}
use bug_free_fiesta.Store.Signers.{
  decline_row, update_signer, signers_of_document, has_signer_key, find_signer,
}
use bug_free_fiesta.Domain.Lifecycle.{assert_document_transition, is_available_for_signing}
use bug_free_fiesta.Domain.Actor.{assert_allowed}
use bug_free_fiesta.Signing.Loaded.{load_signer_session-IsChecked, IsChecked}
use bug_free_fiesta.Domain.SigningMode.{is_pending, can_signer_act_now}
use bug_free_fiesta.Store.Sessions.Moves.{act}
use bug_free_fiesta.Domain.Payload.{
  normalize_key, is_forbidden_key, assert_approved_value, check_props,
  assert_approved_audit_payload,
}
use bug_free_fiesta.Domain.Text.{utf16_length, same_text, has_prefix, has_part}
use bug_free_fiesta.Domain.Canonical.{compute_audit_event_hash}
use bug_free_fiesta.Signing.Declined.{decline_to_sign-HasDeclined, HasDeclined, acting_input}
use bug_free_fiesta.Envelope.Public.{to_public_document, BodyFormat}
use bug_free_fiesta.Envelope.Send.{SendFormat}
use bug_free_fiesta.Domain.Json.{end}
use bug_free_fiesta.Signing.Complete.{InkSupport}
use bug_free_fiesta.Domain.Errors.{ok}

abbrev link : LoadSignerSessionInput
link = record {
  raw_token = "secret";
  require_exchanged = true;
  allow_completed = false;
  account_user_id = none;
}

abbrev asked : SignerRequest
asked = record { raw_token = "secret"; request_id = "request"; account_user_id = none }

abbrev loaded : LoadedSignerSession
loaded = record {
  actor = record {
    organization_id = "org";
    document_id = "doc";
    signer_id = "tenant";
    session_id = "session";
  };
  session = tenant_session;
  document = lease;
  signer = tenant;
}

abbrev catalog : ConsentCatalog
catalog = record { find_by_copy_id = λ id. none; current = record { copy_id = "v1" } }

abbrev body_format : BodyFormat
body_format = record { stored_body = λ body. end; safe_parse = λ body. none }

abbrev send_format : SendFormat
send_format = record {
  stored_body = λ body. end;
  read_body = λ body. record { document = to_public_document lease none [] []; invitations = [] };
  parse_date = λ text. none;
}

abbrev support : InkSupport
support = record {
  put_object = λ organization_id key body. ok tt;
  sha256_hex = λ body. "digest";
  from_base64 = λ text. none;
  text_of = λ json. "";
  max_png_bytes = 1000;
  idempotency_ttl_ms = 3600;
}

load_signer_session-IsChecked_example :
    IsChecked runtime no_account link shop loaded
    × (record shop { clock_reads = 1 } ≡ record shop { clock_reads = 1 })
unfolding load_signer_session load_parties ◌>>=◌ gets require lift pure now_utc check_status
    check_expiry check_exchanged check_document check_account find_by_token_hash find_row
    find_document find_signer has_document_key has_signer_key is_available_for_signing
load_signer_session-IsChecked_example =
    load_signer_session-IsChecked runtime no_account link shop (record shop { clock_reads = 1 })
      loaded refl

serve-Sound_example : Sound runtime [] (
    serve runtime no_account catalog 60 3600 body_format send_format support
      (Request.view asked ∷ Request.decline (some "rent") asked ∷ Request.view asked ∷ [])
      shop)
unfolding events_of_document is_open_for
serve-Sound_example =
    serve-Sound runtime no_account catalog 60 3600 body_format send_format support
      (Request.view asked ∷ Request.decline (some "rent") asked ∷ Request.view asked ∷ []) shop
      ((λ _. refl), tt) (λ key. tt)

abbrev after_decline : Repositories
after_decline = left (decline_to_sign runtime no_account (some "rent") asked shop)

decline_to_sign-HasDeclined_example :
    (by : LoadedSignerSession) × IsChecked runtime no_account (acting_input "secret" none) shop by
    × (can_signer_act_now by.document.signing_mode by.signer
          (signers_of_document by.actor.organization_id by.document.id shop.signers)
        ≡ true)
    × (is_pending by.signer ≡ true)
    × HasDeclined by after_decline
unfolding decline_to_sign decline_loaded store_decline finish_decline load_acting
    load_signer_session load_parties ◌>>=◌ gets require lift pure now_utc check_status check_expiry
    check_exchanged check_document check_account find_by_token_hash find_row find_document
    find_signer has_document_key has_signer_key is_available_for_signing assert_allowed
    signers_of_document can_signer_act_now assert_document_transition on_signers update_signer
    update_row replace_row decline_row on_documents bump_document bump_current mark_declined
    sessions_of_document revoke_open revoke_if_open write_session on_sessions update_session
    has_session_key act revoke_row append_event next_id on_audit_log append_audit
    assert_approved_audit_payload check_props assert_approved_value is_forbidden_key normalize_key
    has_part has_prefix same_text utf16_length compute_audit_event_hash to_canonical_audit_event
    find_latest latest events_of_document
decline_to_sign-HasDeclined_example =
    decline_to_sign-HasDeclined runtime no_account (some "rent") asked shop after_decline refl
