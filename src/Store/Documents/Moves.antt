-- ===== src/Store/Documents/Moves.antt =====
-- How the guarded updates of a document's row fit the transition table and the version counter.
use bug_free_fiesta.Store.Rows.{update_row, update_row-ok, find_row-holds, find_row-replace_row}
use bug_free_fiesta.Domain.Statuses.{completed, finalized, voided, declined, in_progress}
use bug_free_fiesta.Domain.Errors.{guard, >>=-eq-ok, succeeds, Result, ok, err}
use bug_free_fiesta.Store.Documents.{
  lease_conflict, leased_by_another, document_version_conflict, DocumentKey, has_document_key,
  bump_current, ℕ, update_row, Document, bump_document, String, mark_declined, mark_voided,
  mark_in_progress, mark_completed, claim_processing_lease, commit_flattened_revision,
  finalization_failed_row,
}
use bug_free_fiesta.Domain.Lifecycle.{can_transition_document}
use bug_free_fiesta.Prelude.{
  [], ◌∷◌, All, ◌==◌, List, ◌+◌, refl, eq_refl, none, eq_iff, ◌≢◌, false, ◌≤◌, true, Bool, some,
  ◌⊎◌, arith, ◌≡◌,
}

-- The guards written into the repository and the transition table agree: a document is declined,
-- voided, started or completed exactly when the table lets its state move there.
pub guards_agree_with_table :
    (current : Document)
    → (succeeds (mark_declined current) ≡ can_transition_document current.state declined)
      × (succeeds (mark_voided current) ≡ can_transition_document current.state voided)
      × (succeeds (mark_in_progress current) ≡ can_transition_document current.state in_progress)
      × (succeeds (mark_completed current) ≡ can_transition_document current.state completed)
unfolding mark_declined mark_voided mark_in_progress mark_completed can_transition_document
guards_agree_with_table current = ground arith

pub data WorkerUpdate : Type 0 where
  claims : (owner : String) (now lease_until : ℕ) → WorkerUpdate
  commits : (owner revision_id : String) (finalize : Bool) → WorkerUpdate
  fails : (owner : String) → WorkerUpdate

unfoldable pub work : WorkerUpdate → Document → Result Document
work (claims owner now lease_until) = claim_processing_lease owner now lease_until
work (commits owner revision_id finalize) = commit_flattened_revision owner revision_id finalize
work (fails owner) = finalization_failed_row owner

-- What a worker's accepted update does to the state: it stays, it moves as the table says, or, which
-- the table does not have, a completed document is finalized at once by a final commit.
pub work_moves :
    (u : WorkerUpdate) (current next : Document)
    → work u current ≡ ok next
    → (next.state ≡ current.state)
      ⊎ (can_transition_document current.state next.state ≡ true)
      ⊎ ((current.state ≡ completed) × (next.state ≡ finalized))
unfolding work claim_processing_lease commit_flattened_revision finalization_failed_row
    can_transition_document
work_moves (claims owner now lease_until) current next h = ground arith
work_moves (commits owner revision_id true) current next h = ground arith
work_moves (commits owner revision_id false) current next h = ground arith
work_moves (fails owner) current next h = ground arith

-- The final commit of a lease's holder takes a completed document to `finalized`, a move that the
-- transition table does not have.
pub commit_skips_finalizing :
    (owner revision_id : String) (current : Document)
    → current.state ≡ completed
    → current.lease_owner ≡ some owner
    → (next : Document) × (commit_flattened_revision owner revision_id true current ≡ ok next)
      × (next.state ≡ finalized)
      × (can_transition_document current.state next.state ≡ false)
unfolding commit_flattened_revision can_transition_document
commit_skips_finalizing owner revision_id current done held = (
  record current {
    state = finalized;
    current_revision_id = some revision_id;
    lease_owner = none;
    lease_until = none;
  },
  ground (arith, eq_refl owner),
  refl,
  ground arith,
)

-- The row after a sequence of workers' updates, each of which may be refused and then leaves it alone.
unfoldable pub after_work : List WorkerUpdate → Document → Document
unfolding work
after_work [] row = row
after_work (u ∷ updates) row = elim (work u row) [
  | err e ↦ after_work updates row
  | ok next ↦ after_work updates next
]

-- A claim, up to the time `until`, or a commit of another worker than `owner`.
abbrev pub Intrudes : String → ℕ → WorkerUpdate → Type 0
Intrudes owner until (claims other now lease_until) = (owner ≢ other) × (now ≤ until)
Intrudes owner until (commits other revision_id finalize) = owner ≢ other
Intrudes owner until (fails other) = ⊥

intrusion_refused :
    (owner : String) (until : ℕ) (u : WorkerUpdate) (row : Document)
    → row.lease_owner ≡ some owner
    → row.lease_until ≡ some until
    → Intrudes owner until u
    → work u row ≡ err lease_conflict
unfolding work claim_processing_lease leased_by_another commit_flattened_revision
intrusion_refused owner until (claims other now lease_until) row held term h =
    ground (arith, h.0, eq_iff owner other)
intrusion_refused owner until (commits other revision_id finalize) row held term h =
    ground (arith, h, eq_iff owner other)
intrusion_refused owner until (fails other) row held term h = absurd h

after_work-held :
    (owner : String) (until : ℕ) (updates : List WorkerUpdate) (row : Document)
    → row.lease_owner ≡ some owner
    → row.lease_until ≡ some until
    → All (Intrudes owner until) updates
    → after_work updates row ≡ row
unfolding after_work
after_work-held owner until [] row held term h = refl
after_work-held owner until (u ∷ updates) row held term h = ground (
  arith,
  intrusion_refused owner until u row held term h.0,
  after_work-held owner until updates row held term h.1,
)

claim_holds :
    (owner : String) (now until : ℕ) (current next : Document)
    → claim_processing_lease owner now until current ≡ ok next
    → (next.lease_owner ≡ some owner) × (next.lease_until ≡ some until)
unfolding claim_processing_lease
claim_holds owner now until current next h = (ground arith, ground arith)

-- A processing lease is exclusive: once a worker has claimed a document, no sequence of claims and
-- commits by other workers changes its row, as long as the claims come no later than the lease ends.
pub lease_is_exclusive :
    (owner : String) (now until : ℕ) (updates : List WorkerUpdate) (current next : Document)
    → claim_processing_lease owner now until current ≡ ok next
    → All (Intrudes owner until) updates
    → after_work updates next ≡ next
lease_is_exclusive owner now until updates current next h others =
    let (held, term) = claim_holds owner now until current next h in
    after_work-held owner until updates next held term others

abbrev KeepsKey : (Document → Result Document) → Type 0
KeepsKey update =
    (current next : Document)
    → update current ≡ ok next
    → (next.organization_id ≡ current.organization_id) × (next.id ≡ current.id)

bump_current-ok :
    (version : ℕ) (update : Document → Result Document) (current next : Document)
    → bump_current version update current ≡ ok next
    → (current.version ≡ version)
      × ((updated : Document) × (update current ≡ ok updated)
          × (next ≡ record updated { version = current.version + 1 }))
unfolding bump_current
bump_current-ok version update current next h =
    let (_, guarded, rest) =
      >>=-eq-ok (guard (current.version == version) document_version_conflict) _ h in
    let (updated, stepped, same) = >>=-eq-ok (update current) _ rest in
    (ground arith, (updated, stepped, ground arith))

-- No update is lost: once an update that keeps the organization and the id of its row has been written
-- for a version, any other update that expects the same version of the same document is refused as a
-- conflict.
pub no_lost_update :
    (key : DocumentKey) (version : ℕ) (update other : Document → Result Document)
    (rows rows' : List Document) (next : Document)
    → KeepsKey update
    → bump_document key version update rows ≡ ok (next, rows')
    → bump_document key version other rows' ≡ err document_version_conflict
unfolding bump_document update_row bump_current has_document_key
no_lost_update key version update other rows rows' next keeps h =
    let (current, found, stepped, written) = update_row-ok (has_document_key key) _ _ rows h in
    let (expected, (updated, made, same)) = bump_current-ok version update current next stepped in
    let (org, id) = keeps current updated made in
    let mine = find_row-holds (has_document_key key) rows current found in
    let still : has_document_key key next ≡ true = ground arith in
    let again = find_row-replace_row (has_document_key key) next current rows found still in
    rw (written, again, update_row) (ground arith)
