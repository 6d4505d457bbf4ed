-- ===== src/Domain/Lifecycle/Tables.antt =====
-- The transition tables as relations, and what the guards accept.
use bug_free_fiesta.Prelude.{◌≡◌, ◌↔◌, ◌⊎◌, ◌≢◌, refl, true, none, arith}
use bug_free_fiesta.Domain.Errors.{ok}
use bug_free_fiesta.Domain.Statuses.{
  DocumentState, draft, prepared, sent, in_progress, completed, finalizing, finalized, voided,
  expired, declined, finalization_failed, accepted,
}
use bug_free_fiesta.Domain.Entities.{Document}
use bug_free_fiesta.Domain.Lifecycle.{can_transition_document, assert_ready_to_send}

-- The edges of the document's life, one constructor for each reason to move.
pub data Edge : DocumentState → DocumentState → Type 0 where
  prepare : Edge draft prepared
  unprepare : Edge prepared draft
  send_draft : Edge draft sent
  send : Edge prepared sent
  start : Edge sent in_progress
  continue : Edge in_progress in_progress
  complete_at_once : Edge sent completed
  complete : Edge in_progress completed
  void_draft : Edge draft voided
  void_prepared : Edge prepared voided
  void_sent : Edge sent voided
  void_in_progress : Edge in_progress voided
  expire_sent : Edge sent expired
  expire_in_progress : Edge in_progress expired
  decline_sent : Edge sent declined
  decline_in_progress : Edge in_progress declined
  claim : Edge completed finalizing
  retry : Edge finalization_failed finalizing
  finish : Edge finalizing finalized
  fail : Edge finalizing finalization_failed

pub Edge_of_can_transition :
    (from to : DocumentState) → can_transition_document from to ≡ true → Edge from to
unfolding can_transition_document
Edge_of_can_transition draft prepared h = prepare
Edge_of_can_transition prepared draft h = unprepare
Edge_of_can_transition draft sent h = send_draft
Edge_of_can_transition prepared sent h = send
Edge_of_can_transition sent in_progress h = start
Edge_of_can_transition in_progress in_progress h = continue
Edge_of_can_transition sent completed h = complete_at_once
Edge_of_can_transition in_progress completed h = complete
Edge_of_can_transition draft voided h = void_draft
Edge_of_can_transition prepared voided h = void_prepared
Edge_of_can_transition sent voided h = void_sent
Edge_of_can_transition in_progress voided h = void_in_progress
Edge_of_can_transition sent expired h = expire_sent
Edge_of_can_transition in_progress expired h = expire_in_progress
Edge_of_can_transition sent declined h = decline_sent
Edge_of_can_transition in_progress declined h = decline_in_progress
Edge_of_can_transition completed finalizing h = claim
Edge_of_can_transition finalization_failed finalizing h = retry
Edge_of_can_transition finalizing finalized h = finish
Edge_of_can_transition finalizing finalization_failed h = fail
Edge_of_can_transition _ _ h = cc

pub can_transition_of_Edge :
    {from to : DocumentState} → Edge from to → can_transition_document from to ≡ true
unfolding can_transition_document
can_transition_of_Edge prepare = refl
can_transition_of_Edge _ = refl

-- A document moves between two states of the table exactly along an edge of the diagram.
pub can_transition_document_iff :
    (from to : DocumentState) → (can_transition_document from to ≡ true) ↔ Edge from to
can_transition_document_iff from to = (Edge_of_can_transition from to, can_transition_of_Edge)

-- `assertReadyToSend` accepts exactly the documents that are still in preparation, have a current
-- revision and whose inspection accepted the upload.
pub assert_ready_to_send_iff :
    (document : Document)
    → (assert_ready_to_send document ≡ ok tt) ↔ (
        ((document.state ≡ draft) ⊎ (document.state ≡ prepared))
        × (document.current_revision_id ≢ none)
        × (document.inspection_status ≡ accepted))
unfolding assert_ready_to_send
assert_ready_to_send_iff document = ground arith
