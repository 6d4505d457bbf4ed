-- ===== src/Store/Documents.antt =====
-- `createMemoryDocumentRepository` of packages/application/src/documents/memory-adapters.ts. An
-- operation returns the row it wrote and the rows that are left, or the error it throws; a refused
-- operation writes nothing.
pub mod Moves
use bug_free_fiesta.Domain.Errors.{
  ◌>>=◌, guard, throw_if, ◌>>◌, Result, ok, err, ApplicationError, conflict_error, not_found_error,
}
use bug_free_fiesta.Domain.Entities.{DocumentRevision, Document}
use bug_free_fiesta.Store.Rows.{find_row, replace_row, update_row}
use bug_free_fiesta.Domain.Statuses.{
  document_state_eq, DocumentInspectionStatus, DocumentState, SigningMode,
}
use bug_free_fiesta.Prelude.{
  keep_if, ◌++◌, String, [], leb, none, ◌+◌, ◌||◌, not, ◌==◌, ◌&&◌, false, option_str_eq, Option,
  some, str_eq, if◌then◌else◌, true, ◌∷◌, Bool, List,
}
use Prim.Native.Nat.{ℕ}
use bug_free_fiesta.Domain.Lifecycle.{is_preparation_state, is_open_state}

pub record DocumentKey : Type 0 where
  pub organization_id : String
  pub document_id : String

unfoldable pub has_document_key : DocumentKey → Document → Bool
has_document_key key row =
    str_eq row.organization_id key.organization_id && str_eq row.id key.document_id

abbrev document_missing : ApplicationError
document_missing = not_found_error (("resource", "document") ∷ [])

abbrev pub document_version_conflict : ApplicationError
document_version_conflict = conflict_error (("reason", "document_version") ∷ [])

unfoldable pub find_document : DocumentKey → List Document → Option Document
find_document key = find_row (has_document_key key)

-- What a guarded update does to the row that it finds.
unfoldable pub bump_current : ℕ → (Document → Result Document) → Document → Result Document
bump_current expected_version update current = do
  guard (current.version == expected_version) document_version_conflict
  updated ← update current
  ok (record updated { version = current.version + 1 })

unfoldable pub bump_document :
    DocumentKey
    → ℕ
    → (Document → Result Document)
    → List Document
    → Result (Document × List Document)
bump_document key expected_version update =
    update_row (has_document_key key) document_missing (bump_current expected_version update)

-- The updates, as functions of the current row.
unfoldable pub set_source : String → String → Document → Result Document
set_source revision_id source_display_name current = ok (record current {
  source_display_name = some source_display_name;
  current_revision_id = some revision_id;
})

unfoldable pub set_inspection_status : DocumentInspectionStatus → Document → Result Document
set_inspection_status inspection_status current =
    ok (record current { inspection_status = inspection_status })

unfoldable pub set_signing_mode : SigningMode → Document → Result Document
set_signing_mode signing_mode current = ok (record current { signing_mode = signing_mode })

unfoldable pub set_preparation_state : DocumentState → Document → Result Document
set_preparation_state state current = ok (record current { state = state })

unfoldable pub mark_sent : String → Option ℕ → Document → Result Document
mark_sent signing_revision_id expires_at current = ok (record current {
  state = DocumentState.sent;
  signing_revision_id = some signing_revision_id;
  expires_at = expires_at;
})

unfoldable pub mark_declined : Document → Result Document
mark_declined current = do
  guard (is_open_state current.state) (conflict_error (("reason", "document_not_declinable") ∷ []))
  ok (record current { state = DocumentState.declined })

unfoldable pub mark_voided : Document → Result Document
mark_voided current = do
  guard (is_preparation_state current.state || is_open_state current.state)
      (conflict_error (("reason", "document_not_voidable") ∷ []))
  ok (record current { state = DocumentState.voided })

unfoldable pub mark_in_progress : Document → Result Document
mark_in_progress current = do
  guard (is_open_state current.state) (conflict_error (("reason", "document_not_in_progress") ∷ []))
  ok (record current { state = DocumentState.in_progress })

unfoldable pub mark_completed : Document → Result Document
mark_completed current = do
  guard (is_open_state current.state) (conflict_error (("reason", "document_not_completable") ∷ []))
  ok (record current { state = DocumentState.completed })

abbrev lease_conflict : ApplicationError
lease_conflict =
    conflict_error (("reason", "document_lease") ∷ ("code", "CONCURRENT_FINALIZATION") ∷ [])

-- `until !== null && until >= now && owner !== other`
unfoldable pub leased_by_another : Document → String → ℕ → Bool
leased_by_another current owner now = elim current.lease_until [
  | none ↦ false
  | some until ↦ leb now until && not (option_str_eq current.lease_owner (some owner))
]

abbrev is_flattenable : DocumentState → Bool
is_flattenable DocumentState.sent = true
is_flattenable DocumentState.in_progress = true
is_flattenable DocumentState.completed = true
is_flattenable DocumentState.finalization_failed = true
is_flattenable DocumentState.finalizing = true
is_flattenable _ = false

abbrev claimed_state : DocumentState → DocumentState
claimed_state DocumentState.completed = DocumentState.finalizing
claimed_state DocumentState.finalization_failed = DocumentState.finalizing
claimed_state DocumentState.sent = DocumentState.in_progress
claimed_state other = other

unfoldable pub claim_processing_lease : String → ℕ → ℕ → Document → Result Document
unfolding leased_by_another
claim_processing_lease owner now lease_until current = do
  throw_if (leased_by_another current owner now) lease_conflict
  guard (is_flattenable current.state)
      (conflict_error (("reason", "document_not_flattenable") ∷ []))
  let next_state = claimed_state current.state
  ok (record current {
    state = next_state;
    lease_owner = some owner;
    lease_until = some lease_until;
    finalization_attempt_count =
        if document_state_eq next_state DocumentState.finalizing
        then current.finalization_attempt_count + 1
        else current.finalization_attempt_count;
  })

unfoldable pub commit_flattened_revision : String → String → Bool → Document → Result Document
commit_flattened_revision owner revision_id finalize current = do
  guard (option_str_eq current.lease_owner (some owner)) lease_conflict
  throw_if
      (finalize
        && not (
            document_state_eq current.state DocumentState.finalizing
            || document_state_eq current.state DocumentState.completed))
      (conflict_error (("reason", "document_not_finalizable") ∷ []))
  ok (record current {
    state = if finalize then DocumentState.finalized else current.state;
    current_revision_id = some revision_id;
    lease_owner = none;
    lease_until = none;
  })

-- `markFinalizationFailed` checks no version, and leaves a row alone that is neither leased by the
-- owner nor being finalized.
unfoldable pub finalization_failed_row : String → Document → Result Document
finalization_failed_row owner current =
    if not (option_str_eq current.lease_owner (some owner))
      && not (document_state_eq current.state DocumentState.finalizing)
    then ok current
    else ok (record current {
      state =
          if document_state_eq current.state DocumentState.finalizing
          then DocumentState.finalization_failed
          else current.state;
      version = current.version + 1;
      lease_owner = none;
      lease_until = none;
    })

unfoldable pub mark_finalization_failed :
    DocumentKey → String → List Document → Result (Document × List Document)
mark_finalization_failed key owner =
    update_row (has_document_key key) document_missing (finalization_failed_row owner)

unfoldable pub released_row : String → Document → Document
released_row owner current =
    if option_str_eq current.lease_owner (some owner)
    then record current { version = current.version + 1; lease_owner = none; lease_until = none }
    else current

-- `releaseProcessingLease` is silent where the row is missing or leased by another.
unfoldable pub release_processing_lease : DocumentKey → String → List Document → List Document
unfolding released_row
release_processing_lease key owner rows = elim (find_row (has_document_key key) rows) [
  | none ↦ rows
  | some current ↦ replace_row (has_document_key key) (released_row owner current) rows
]

-- `createMemoryDocumentRevisionRepository`
unfoldable pub find_revision : String → String → List DocumentRevision → Option DocumentRevision
find_revision organization_id revision_id =
    find_row (λ row. str_eq row.organization_id organization_id && str_eq row.id revision_id)

unfoldable pub documents_of_organization : String → List Document → List Document
documents_of_organization organization_id =
    keep_if (λ row. str_eq row.organization_id organization_id)

unfoldable pub create_document : Document → List Document → Result (Document × List Document)
create_document document rows = ok (document, rows ++ document ∷ [])
