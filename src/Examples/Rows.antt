-- ===== src/Examples/Rows.antt =====
-- The repositories on the example rows.
use bug_free_fiesta.Examples.Parties.{lease, tenant_session, runtime}
use bug_free_fiesta.Domain.Statuses.{
  AuditActorType, AuditEventType, DocumentState, SigningSessionStatus,
}
use bug_free_fiesta.Store.Sessions.Moves.{
  after_updates, exchanged_once, act_moves, closed_stays_closed, act, SessionUpdate,
}
use bug_free_fiesta.Store.Documents.Moves.{
  after_work, work_moves, guards_agree_with_table, no_lost_update, commit_skips_finalizing,
  lease_is_exclusive, work, WorkerUpdate,
}
use bug_free_fiesta.Store.Ledger.{
  stored_event, in_chain, events_of_document, latest_from, latest, find_latest, append_audit,
  AuditAppendInput, ChainKey,
}
use bug_free_fiesta.Domain.Errors.{conflict_error, err, ok, succeeds}
use bug_free_fiesta.Store.Sessions.{
  has_session_key, complete_row, is_open_for, revoke_row, update_session, SessionKey, rotate_row,
  create_session,
}
use bug_free_fiesta.Store.Documents.{
  leased_by_another, document_version_conflict, mark_completed, has_document_key, mark_in_progress,
  bump_current, mark_voided, mark_declined, claim_processing_lease, commit_flattened_revision,
  bump_document, DocumentKey,
}
use bug_free_fiesta.Domain.Entities.{SigningSession, Document}
use bug_free_fiesta.Prelude.{
  List, ◌+◌, ◌++◌, eq_iff, arith, refl, [], ◌⊎◌, false, ◌∷◌, true, ◌≡◌, none, some,
}
use bug_free_fiesta.Store.Rows.{replace_row, find_row, update_row}
use bug_free_fiesta.Store.Sessions.OneOpen.{create_session-OneOpen, act-OneOpen, OneOpen}
use bug_free_fiesta.Domain.Json.{end}
use bug_free_fiesta.Domain.Lifecycle.{can_transition_signing_session, can_transition_document}
use bug_free_fiesta.Domain.Payload.{check_props, assert_approved_audit_payload}
use bug_free_fiesta.Domain.Canonical.{to_canonical_audit_event, compute_audit_event_hash}
use bug_free_fiesta.Store.Ledger.Chain.{append_audit-IsChain, IsChain}

abbrev lease_key : DocumentKey
lease_key = record { organization_id = "org"; document_id = "doc" }

abbrev tenant_session_key : SessionKey
tenant_session_key = record { organization_id = "org"; session_id = "session" }

-- The document when every signer has signed, and a worker has claimed it.
abbrev signed_lease : Document
signed_lease = record lease {
  state = DocumentState.completed;
  lease_owner = some "worker";
  lease_until = some 50;
}

abbrev revoked_session : SigningSession
revoked_session = record tenant_session {
  status = SigningSessionStatus.revoked;
  revoked_at = some 9;
}

abbrev unused_session : SigningSession
unused_session = record tenant_session { status = SigningSessionStatus.issued; consumed_at = none }

abbrev other_session : SigningSession
other_session = record tenant_session { id = "other"; signer_id = "landlord" }

abbrev sent_event : AuditAppendInput
sent_event = record {
  id = "event";
  organization_id = "org";
  document_id = "doc";
  type = AuditEventType.document_sent;
  actor_type = AuditActorType.account_user;
  actor_id = "user";
  occurred_at = 7;
  payload = end;
  request_id = none;
}

abbrev chain : ChainKey
chain = record { organization_id = "org"; document_id = "doc" }

guards_agree_with_table_example :
    (succeeds (mark_declined lease) ≡ can_transition_document lease.state DocumentState.declined)
    × (succeeds (mark_voided lease) ≡ can_transition_document lease.state DocumentState.voided)
    × (succeeds (mark_in_progress lease)
        ≡ can_transition_document lease.state DocumentState.in_progress)
    × (succeeds (mark_completed lease)
        ≡ can_transition_document lease.state DocumentState.completed)
guards_agree_with_table_example = guards_agree_with_table lease

work_moves_example :
    (DocumentState.finalizing ≡ DocumentState.completed)
    ⊎ (can_transition_document DocumentState.completed DocumentState.finalizing ≡ true)
    ⊎ ((DocumentState.completed ≡ DocumentState.completed)
        × (DocumentState.finalizing ≡ DocumentState.finalized))
unfolding work claim_processing_lease
work_moves_example = work_moves (WorkerUpdate.claims "worker" 40 90) signed_lease _ refl

commit_skips_finalizing_example :
    (next : Document) × (commit_flattened_revision "worker" "final" true signed_lease ≡ ok next)
    × (next.state ≡ DocumentState.finalized)
    × (can_transition_document DocumentState.completed next.state ≡ false)
commit_skips_finalizing_example = commit_skips_finalizing "worker" "final" signed_lease refl refl

abbrev intrusions : List WorkerUpdate
intrusions = WorkerUpdate.claims "thief" 50 90 ∷ WorkerUpdate.commits "other" "final" true ∷ []

abbrev claimed_lease : Document
claimed_lease = record signed_lease {
  state = DocumentState.finalizing;
  lease_owner = some "worker";
  lease_until = some 60;
  finalization_attempt_count = signed_lease.finalization_attempt_count + 1;
}

lease_is_exclusive_example : after_work intrusions claimed_lease ≡ claimed_lease
unfolding claim_processing_lease leased_by_another
lease_is_exclusive_example =
    lease_is_exclusive "worker" 40 60 intrusions signed_lease claimed_lease refl (
      (λ e. ground (arith, eq_iff "worker" "thief"), omega arith),
      ((λ e. ground (arith, eq_iff "worker" "other")), tt),
    )

no_lost_update_example :
    bump_document lease_key 3 mark_voided
      (record lease { state = DocumentState.declined; version = 4 } ∷ [])
    ≡ err document_version_conflict
unfolding bump_document update_row find_row replace_row bump_current mark_declined has_document_key
no_lost_update_example =
    no_lost_update lease_key 3 mark_declined mark_voided (lease ∷ []) _ _
      (λ current next h. ground arith) refl

act_moves_example :
    (SigningSessionStatus.revoked ≡ SigningSessionStatus.active)
    ⊎ (can_transition_signing_session SigningSessionStatus.active SigningSessionStatus.revoked
        ≡ true)
    ⊎ ((SigningSessionStatus.active ≡ SigningSessionStatus.issued)
        × (SigningSessionStatus.revoked ≡ SigningSessionStatus.completed))
unfolding act revoke_row
act_moves_example = act_moves (SessionUpdate.revokes 9) tenant_session revoked_session refl

closed_stays_closed_example : SigningSessionStatus.completed ≡ SigningSessionStatus.completed
unfolding act complete_row
closed_stays_closed_example =
    closed_stays_closed (SessionUpdate.completes 20)
      (record tenant_session { status = SigningSessionStatus.completed })
      (record tenant_session { status = SigningSessionStatus.completed }) refl refl

abbrev exchanged_session : SigningSession
exchanged_session = record unused_session {
  token_hash = "new";
  csrf_token_hash = some "csrf";
  consumed_at = some 11;
  status = SigningSessionStatus.active;
  last_presented_at = some 11;
  version = 3;
}

abbrev later_updates : List SessionUpdate
later_updates = SessionUpdate.presents 12 ∷ SessionUpdate.rotates 3 "stolen" "stolen" 13 ∷ []

exchanged_once_example :
    rotate_row 3 "again" "again" 14 (after_updates later_updates exchanged_session)
    ≡ err (conflict_error (("reason", "session_not_exchangeable") ∷ []))
unfolding rotate_row
exchanged_once_example =
    exchanged_once 2 3 "new" "csrf" "again" "again" 11 14 later_updates unused_session
      exchanged_session refl

create_session-OneOpen_example : OneOpen (tenant_session ∷ other_session ∷ [])
unfolding create_session is_open_for
create_session-OneOpen_example =
    create_session-OneOpen "org" other_session (tenant_session ∷ [])
      (tenant_session ∷ other_session ∷ []) other_session refl ((λ _. refl), tt) refl

act-OneOpen_example : OneOpen (revoked_session ∷ [])
unfolding update_session update_row find_row replace_row has_session_key act revoke_row is_open_for
act-OneOpen_example =
    act-OneOpen tenant_session_key (SessionUpdate.revokes 9) (tenant_session ∷ [])
      (revoked_session ∷ []) revoked_session ((λ _. refl), tt) refl

append_audit-IsChain_example :
    IsChain runtime.iso runtime.sha256_json chain (stored_event sent_event none "digest" ∷ [])
    × (stored_event sent_event none "digest" ∷ []
        ≡ [] ++ stored_event sent_event none "digest" ∷ [])
unfolding append_audit find_latest latest latest_from events_of_document in_chain
    assert_approved_audit_payload check_props compute_audit_event_hash to_canonical_audit_event
append_audit-IsChain_example =
    append_audit-IsChain runtime.iso runtime.sha256_json chain sent_event []
      (stored_event sent_event none "digest" ∷ []) (stored_event sent_event none "digest") refl tt
