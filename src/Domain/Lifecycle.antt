-- ===== src/Domain/Lifecycle.antt =====
-- packages/domain/src/document-lifecycle.ts: the transition tables and the guards over them.
pub mod Reachability
pub mod Tables
use bug_free_fiesta.Prelude.{
  ◌≡◌, Bool, true, ◌&&◌, ◌||◌, not, List, [], ◌∷◌, ℕ, any, ltb, is_none, if◌then◌else◌,
}
use bug_free_fiesta.Domain.Errors.{
  Result, ok, err, ◌>>◌, guard, throw_if, invalid_state_transition_error,
}
use bug_free_fiesta.Domain.Statuses.{
  signing_session_status_text, document_state_text, inspection_status_text, DocumentState,
  SigningSessionStatus, DocumentInspectionStatus, accepted, pending, rejected, document_state_eq,
  signing_session_status_eq,
}
use bug_free_fiesta.Domain.Entities.{Document, SigningSession}

abbrev pub document_transitions : DocumentState → List DocumentState
document_transitions DocumentState.draft =
    DocumentState.prepared ∷ DocumentState.sent ∷ DocumentState.voided ∷ []
document_transitions DocumentState.prepared =
    DocumentState.draft ∷ DocumentState.sent ∷ DocumentState.voided ∷ []
document_transitions DocumentState.sent =
    DocumentState.in_progress ∷ DocumentState.completed ∷ DocumentState.voided
    ∷ DocumentState.expired ∷ DocumentState.declined ∷ []
document_transitions DocumentState.in_progress =
    DocumentState.in_progress ∷ DocumentState.completed ∷ DocumentState.voided
    ∷ DocumentState.expired ∷ DocumentState.declined ∷ []
document_transitions DocumentState.completed = DocumentState.finalizing ∷ []
document_transitions DocumentState.finalizing =
    DocumentState.finalized ∷ DocumentState.finalization_failed ∷ []
document_transitions DocumentState.finalization_failed = DocumentState.finalizing ∷ []
document_transitions DocumentState.finalized = []
document_transitions DocumentState.voided = []
document_transitions DocumentState.expired = []
document_transitions DocumentState.declined = []

abbrev pub signing_session_transitions : SigningSessionStatus → List SigningSessionStatus
signing_session_transitions SigningSessionStatus.issued =
    SigningSessionStatus.active ∷ SigningSessionStatus.expired ∷ SigningSessionStatus.revoked ∷ []
signing_session_transitions SigningSessionStatus.active =
    SigningSessionStatus.completed ∷ SigningSessionStatus.expired ∷ SigningSessionStatus.revoked
    ∷ []
signing_session_transitions SigningSessionStatus.completed = []
signing_session_transitions SigningSessionStatus.expired = []
signing_session_transitions SigningSessionStatus.revoked = []

unfoldable pub can_transition_document : DocumentState → DocumentState → Bool
can_transition_document from to = any (document_state_eq to) (document_transitions from)

unfoldable pub assert_document_transition : DocumentState → DocumentState → Result (Unit {0})
unfolding can_transition_document
assert_document_transition from to = guard (can_transition_document from to) (
    invalid_state_transition_error (
      ("from", document_state_text from)
      ∷ ("to", document_state_text to)
      ∷ ("aggregate", "document")
      ∷ []))

unfoldable pub can_transition_signing_session : SigningSessionStatus → SigningSessionStatus → Bool
can_transition_signing_session from to =
    any (signing_session_status_eq to) (signing_session_transitions from)

unfoldable pub assert_signing_session_transition :
    SigningSessionStatus → SigningSessionStatus → Result (Unit {0})
unfolding can_transition_signing_session
assert_signing_session_transition from to = guard (can_transition_signing_session from to) (
    invalid_state_transition_error (
      ("from", signing_session_status_text from)
      ∷ ("to", signing_session_status_text to)
      ∷ ("aggregate", "signing_session")
      ∷ []))

abbrev pub is_inspection_accepted : DocumentInspectionStatus → Bool
is_inspection_accepted accepted = true
is_inspection_accepted pending = Bool.false
is_inspection_accepted rejected = Bool.false

abbrev pub is_preparation_state : DocumentState → Bool
is_preparation_state state =
    document_state_eq state DocumentState.draft || document_state_eq state DocumentState.prepared

abbrev pub is_preparation_locked : Document → Bool
is_preparation_locked document = not (is_preparation_state document.state)

-- `state === 'sent' || state === 'in_progress'`
abbrev pub is_open_state : DocumentState → Bool
is_open_state state =
    document_state_eq state DocumentState.sent || document_state_eq state DocumentState.in_progress

unfoldable pub is_available_for_signing : Document → Bool
is_available_for_signing document =
    is_inspection_accepted document.inspection_status && is_open_state document.state

unfoldable pub assert_inspection_accepted : Document → Result (Unit {0})
assert_inspection_accepted document = guard (is_inspection_accepted document.inspection_status) (
    invalid_state_transition_error (
      ("aggregate", "document")
      ∷ ("reason", "inspection_not_accepted")
      ∷ ("inspectionStatus", inspection_status_text document.inspection_status)
      ∷ []))

unfoldable pub assert_preparation_unlocked : Document → Result (Unit {0})
assert_preparation_unlocked document = throw_if (is_preparation_locked document) (
    invalid_state_transition_error (
      ("aggregate", "document")
      ∷ ("from", document_state_text document.state)
      ∷ ("reason", "preparation_locked")
      ∷ []))

unfoldable pub assert_ready_to_send : Document → Result (Unit {0})
unfolding assert_inspection_accepted
assert_ready_to_send document = do
  guard (is_preparation_state document.state) (
      invalid_state_transition_error (
        ("aggregate", "document")
        ∷ ("from", document_state_text document.state)
        ∷ ("to", "sent")
        ∷ ("reason", "not_preparable")
        ∷ []))
  throw_if (is_none document.current_revision_id) (
      invalid_state_transition_error (
        ("aggregate", "document")
        ∷ ("from", document_state_text document.state)
        ∷ ("to", "sent")
        ∷ ("reason", "missing_revision")
        ∷ []))
  assert_inspection_accepted document

abbrev pub is_open_status : SigningSessionStatus → Bool
is_open_status status =
    signing_session_status_eq status SigningSessionStatus.issued
    || signing_session_status_eq status SigningSessionStatus.active

unfoldable pub is_open_signing_session : SigningSession → ℕ → Bool
is_open_signing_session session now =
    is_open_status session.status && ltb now session.expires_at && is_none session.revoked_at
