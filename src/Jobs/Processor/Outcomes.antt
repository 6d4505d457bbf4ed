-- ===== src/Jobs/Processor/Outcomes.antt =====
-- What the processor does with the events that it claims.
use bug_free_fiesta.Store.Rows.{
  find_row, replace_row, find_row-mem, find_row-holds, All-replace_row,
}
use bug_free_fiesta.Jobs.Claimer.{
  holds_event, mark_dead_lettered, claimed_event, schedule_retry, Settlement, update_first,
  mark_processed, apply_outcome, is_claimable, claim_next_by_type, claim_found, ClaimInput, Outbox,
  ClaimedOutboxWork,
}
use bug_free_fiesta.Domain.Statuses.{BackgroundJobStatus, outbox_status_eq, OutboxStatus}
use bug_free_fiesta.Prelude.{
  ◌<◌, sym, subst, ap, [], arith, Option-cases, ◌+◌, refl, inr, inl, is_none, none, any, ◌≤◌, true,
  ◌∷◌, Memᴰ, Bool-cases, List, All, Option, ℕ, Bool, ◌≡◌,
}
use bug_free_fiesta.Jobs.Processor.{
  claim_of, classify_job_failure, Thrown, retry_scheduled, is_terminal, settlement_of,
  HandlerResult, false, String, attempt, not, settle, some, ProcessInput, process_claimed,
  process_next,
}
use bug_free_fiesta.Domain.Entities.{OutboxEvent}

replace_row-mem {ℓ} :
    {A : Type ℓ} (p : A → Bool) (next current : A) (rows : List A)
    → find_row p rows ≡ some current
    → Memᴰ next (replace_row p next rows)
unfolding find_row replace_row
replace_row-mem p next current [] h = cc
replace_row-mem p next current (row ∷ rows) h = elim (Bool-cases (p row)) [
  | inl hit ↦ rw hit (Memᴰ.head refl)
  | inr miss ↦ rw miss (Memᴰ.tail (replace_row-mem p next current rows (ground arith)))
]

claim_found-some :
    (input : ClaimInput) (event : OutboxEvent) (outbox outbox' : Outbox) (work : ClaimedOutboxWork)
    → claim_found input (some event) outbox ≡ (some work, outbox')
    → (claimed_event input event ≡ work.event)
      × (replace_row (is_claimable input) (claimed_event input event) outbox.0 ≡ outbox'.0)
unfolding claim_found
claim_found-some input event (events, jobs) outbox' work h = (ground arith, ap (λ r. r.1.0) h)

nothing_found :
    (input : ClaimInput) (outbox outbox' : Outbox) (work : ClaimedOutboxWork)
    → claim_found input none outbox ≡ (some work, outbox')
    → ⊥
unfolding claim_found
nothing_found input outbox outbox' work h = ground arith

claimed_not_claimable :
    (input later : ClaimInput) (event : OutboxEvent)
    → later.now ≤ input.lease_until
    → is_claimable later (claimed_event input event) ≡ false
unfolding is_claimable
claimed_not_claimable input later event early = ground arith

-- A claim that finds work takes a claimable event, counts the attempt and stores the claimed event,
-- and no claim made up to the end of its lease, by whatever worker, accepts that event.
pub claim_excludes :
    (input later : ClaimInput) (outbox outbox' : Outbox) (work : ClaimedOutboxWork)
    → claim_next_by_type input outbox ≡ (some work, outbox')
    → later.now ≤ input.lease_until
    → (is_claimable later work.event ≡ false)
      × Memᴰ work.event outbox'.0
      × ((event : OutboxEvent) × Memᴰ event outbox.0
          × (is_claimable input event ≡ true)
          × (work.event.attempt_count ≡ event.attempt_count + 1))
unfolding claim_next_by_type
claim_excludes input later outbox outbox' work h early =
    elim (Option-cases (find_row (is_claimable input) outbox.0)) [
      | inl missed ↦ absurd (nothing_found input outbox outbox' work (rw missed at h))
      | inr (event, found) ↦
          let (same, stored) = claim_found-some input event outbox outbox' work (rw found at h) in
          (
            subst (λ e. is_claimable later e ≡ false) same
                (claimed_not_claimable input later event early),
            subst (λ e. Memᴰ e outbox'.0) same
                (subst (λ rows. Memᴰ (claimed_event input event) rows) stored
                  (replace_row-mem (is_claimable input) _ event outbox.0 found)),
            (
              event,
              find_row-mem (is_claimable input) outbox.0 event found,
              find_row-holds (is_claimable input) outbox.0 event found,
              sym (ap (λ e. e.attempt_count) same),
            ),
          )
    ]

-- An event has a lease owner exactly while it is being processed.
abbrev pub IsLeased : OutboxEvent → Type 0
IsLeased event =
    outbox_status_eq event.status OutboxStatus.processing ≡ not (is_none event.lease_owner)

module _ (p : OutboxEvent → Bool) (f : OutboxEvent → OutboxEvent)
    (leased : (e : OutboxEvent) → IsLeased (f e)) where
  update_first-IsLeased :
      (rows : List OutboxEvent) → All IsLeased rows → All IsLeased (update_first p f rows)
  unfolding update_first
  update_first-IsLeased [] h = tt
  update_first-IsLeased (row ∷ rows) h = elim (Bool-cases (p row)) [
    | inl hit ↦ rw hit (leased row, h.1)
    | inr miss ↦ rw miss (h.0, update_first-IsLeased rows h.1)
  ]

claim_found-IsLeased :
    (input : ClaimInput) (found : Option OutboxEvent) (outbox : Outbox)
    → All IsLeased outbox.0
    → All IsLeased (claim_found input found outbox).1.0
unfolding claim_found
claim_found-IsLeased input none outbox h = h
claim_found-IsLeased input (some event) (events, jobs) h =
    All-replace_row IsLeased (is_claimable input) (claimed_event input event) events h refl

mark_processed-IsLeased :
    (input : Settlement) (processed_at : ℕ) (outbox : Outbox)
    → All IsLeased outbox.0
    → All IsLeased (mark_processed input processed_at outbox).0
unfolding mark_processed
mark_processed-IsLeased input processed_at (events, jobs) h =
    elim (Bool-cases (any (holds_event input) events)) [
      | inl held ↦ rw held (update_first-IsLeased (holds_event input) _ (λ e. refl) events h)
      | inr free ↦ rw free h
    ]

apply_outcome-IsLeased :
    (input : Settlement) (error_code : String) (status : OutboxStatus)
    (job_status : BackgroundJobStatus) (available_at : Option ℕ) (outbox : Outbox)
    → outbox_status_eq status OutboxStatus.processing ≡ false
    → All IsLeased outbox.0
    → All IsLeased (apply_outcome input error_code status job_status available_at outbox).0
unfolding apply_outcome
apply_outcome-IsLeased input error_code status job_status available_at (events, jobs) released h =
    elim (Option-cases (find_row (holds_event input) events)) [
      | inl missed ↦ rw missed h
      | inr (event, found) ↦
          rw found (All-replace_row IsLeased (holds_event input) _ events h released)
    ]

module _ (clock : ℕ → ℕ) (lease_ms : ℕ) (delay_ms : ℕ → ℕ) where
  settle-IsLeased :
      (input : ProcessInput) (claimed : ClaimedOutboxWork) (result : HandlerResult)
      (outbox : Outbox)
      → All IsLeased outbox.0
      → All IsLeased (settle clock lease_ms delay_ms input claimed result outbox).1.0
  unfolding settle schedule_retry mark_dead_lettered
  settle-IsLeased input claimed HandlerResult.returned outbox h =
      mark_processed-IsLeased (settlement_of input claimed) (clock 2) outbox h
  settle-IsLeased input claimed (HandlerResult.threw error) outbox h =
      elim (Bool-cases (is_terminal claimed error)) [
        | inl dead ↦ rw dead (apply_outcome-IsLeased _ _ _ _ _ outbox refl h)
        | inr again ↦ rw again (apply_outcome-IsLeased _ _ _ _ _ outbox refl h)
      ]

  process_claimed-IsLeased :
      (input : ProcessInput) (work : Option ClaimedOutboxWork) (outbox : Outbox)
      → All IsLeased outbox.0
      → All IsLeased (process_claimed clock lease_ms delay_ms input (work, outbox)).1.0
  unfolding process_claimed
  process_claimed-IsLeased input none outbox h = h
  process_claimed-IsLeased input (some claimed) outbox h =
      settle-IsLeased input claimed (attempt input claimed) outbox h

-- Whatever the handler does, a pass of the processor keeps every event leased exactly while it is
-- being processed.
pub process_next-IsLeased :
    (clock : ℕ → ℕ) (lease_ms : ℕ) (delay_ms : ℕ → ℕ) (should_stop : Bool) (input : ProcessInput)
    (outbox : Outbox)
    → All IsLeased outbox.0
    → All IsLeased (process_next clock lease_ms delay_ms should_stop input outbox).1.0
unfolding process_next claim_next_by_type
process_next-IsLeased clock lease_ms delay_ms true input outbox h = h
process_next-IsLeased clock lease_ms delay_ms false input outbox h =
    process_claimed-IsLeased clock lease_ms delay_ms input _ _ (claim_found-IsLeased _ _ outbox h)

module _ (clock : ℕ → ℕ) (lease_ms : ℕ) (delay_ms : ℕ → ℕ) where
  settle_retry :
      (input : ProcessInput) (claimed : ClaimedOutboxWork) (result : HandlerResult)
      (outbox outbox' : Outbox)
      → settle clock lease_ms delay_ms input claimed result outbox ≡ (retry_scheduled, outbox')
      → (error : Thrown) × (result ≡ HandlerResult.threw error)
        × (is_terminal claimed error ≡ false)
  unfolding settle
  settle_retry input claimed HandlerResult.returned outbox outbox' h = absurd (ground arith)
  settle_retry input claimed (HandlerResult.threw error) outbox outbox' h =
      elim (Bool-cases (is_terminal claimed error)) [
        | inl dead ↦ absurd (ground arith)
        | inr again ↦ (error, refl, again)
      ]

  process_claimed_retry :
      (input : ProcessInput) (work : Option ClaimedOutboxWork) (outbox outbox' : Outbox)
      → process_claimed clock lease_ms delay_ms input (work, outbox) ≡ (retry_scheduled, outbox')
      → (claimed : ClaimedOutboxWork) × (error : Thrown) × (work ≡ some claimed)
        × (attempt input claimed ≡ HandlerResult.threw error)
        × (is_terminal claimed error ≡ false)
  unfolding process_claimed
  process_claimed_retry input none outbox outbox' h = absurd (ground arith)
  process_claimed_retry input (some claimed) outbox outbox' h =
      let (error, raised, again) =
        settle_retry input claimed (attempt input claimed) outbox outbox' h in
      (claimed, error, refl, raised, again)

-- A retry is scheduled only for claimed work whose attempt threw a failure that can be retried, and
-- only while its event has been attempted fewer times than its job allows.
pub retry_is_bounded :
    (clock : ℕ → ℕ) (lease_ms : ℕ) (delay_ms : ℕ → ℕ) (input : ProcessInput)
    (outbox outbox' : Outbox)
    → process_next clock lease_ms delay_ms false input outbox ≡ (retry_scheduled, outbox')
    → (claimed : ClaimedOutboxWork) × (error : Thrown) × ((claim_next_by_type
          (claim_of clock lease_ms input)
          outbox).0
        ≡ some claimed)
      × (attempt input claimed ≡ HandlerResult.threw error)
      × ((classify_job_failure error).retryable ≡ true)
      × (claimed.event.attempt_count < claimed.job.max_attempts)
unfolding process_next is_terminal
retry_is_bounded clock lease_ms delay_ms input outbox outbox' h =
    let (claimed, error, found, raised, again) =
      process_claimed_retry clock lease_ms delay_ms input _ _ outbox' h in
    (claimed, error, found, raised, ground arith, ground arith)
