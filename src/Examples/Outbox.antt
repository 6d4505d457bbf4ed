-- ===== src/Examples/Outbox.antt =====
-- The outbox on a pending event.
use bug_free_fiesta.Jobs.Claimer.{holds_event}
use bug_free_fiesta.Examples.Parties.{runtime}
use bug_free_fiesta.Domain.Statuses.{OutboxStatus}
use bug_free_fiesta.Jobs.Processor.{
  claim_of, classify_job_failure, is_terminal, settle, attempt, process_claimed, ProcessInput,
  process_next, HandlerResult, Thrown,
}
use bug_free_fiesta.Jobs.Claimer.{
  apply_outcome, schedule_retry, ensure_job, job_of_event, is_claimable, claimed_job, claimed_event,
  claim_found, claim_next_by_type, ClaimedOutboxWork, Outbox, ClaimInput,
}
use bug_free_fiesta.Prelude.{
  ◌<◌, arith, ◌+◌, true, Memᴰ, ◌≡◌, none, refl, [], ◌∷◌, some, false, All,
}
use bug_free_fiesta.Domain.Entities.{OutboxEvent}
use bug_free_fiesta.Jobs.Processor.Outcomes.{
  retry_is_bounded, claim_excludes, process_next-IsLeased, IsLeased,
}
use bug_free_fiesta.Domain.Json.{end}
use bug_free_fiesta.Store.Rows.{replace_row, find_row}
use bug_free_fiesta.Domain.Payload.{check_job_entries, assert_safe_job_payload}

abbrev flatten_event : OutboxEvent
flatten_event = record {
  id = "event";
  organization_id = "org";
  document_id = some "doc";
  type = "flatten";
  status = OutboxStatus.pending;
  payload = end;
  request_id = none;
  attempt_count = 0;
  lease_owner = none;
  lease_until = none;
  available_at = 0;
  processed_at = none;
  last_error_code = none;
  created_at = 0;
  updated_at = 0;
}

abbrev waiting : Outbox
waiting = (flatten_event ∷ [], [])

abbrev claim : ClaimInput
claim = record { type = "flatten"; now = 10; owner = "worker"; lease_until = 60 }

abbrev thief : ClaimInput
thief = record { type = "flatten"; now = 30; owner = "thief"; lease_until = 90 }

abbrev worked : ClaimedOutboxWork
worked = record {
  event = claimed_event claim flatten_event;
  job = claimed_job claim (job_of_event flatten_event 10);
  lease_recovered = false;
}

abbrev failing : ProcessInput
failing = record {
  type = "flatten";
  owner = "worker";
  handler = λ claimed. HandlerResult.threw Thrown.unknown;
}

claim_excludes_example :
    (is_claimable thief worked.event ≡ false)
    × Memᴰ worked.event (worked.event ∷ [])
    × ((event : OutboxEvent) × Memᴰ event waiting.0
        × (is_claimable claim event ≡ true)
        × (worked.event.attempt_count ≡ event.attempt_count + 1))
unfolding claim_next_by_type claim_found find_row is_claimable ensure_job replace_row
claim_excludes_example =
    claim_excludes claim thief waiting (worked.event ∷ [], worked.job ∷ []) worked refl
      (omega arith)

process_next-IsLeased_example :
    All IsLeased (process_next runtime.clock_at 50 (λ n. 7) false failing waiting).1.0
process_next-IsLeased_example =
    process_next-IsLeased runtime.clock_at 50 (λ n. 7) false failing waiting (refl, tt)

abbrev after_failure : Outbox
after_failure = (process_next runtime.clock_at 50 (λ n. 7) false failing waiting).1

retry_is_bounded_example :
    (claimed : ClaimedOutboxWork) × (error : Thrown) × ((claim_next_by_type
        (claim_of runtime.clock_at 50 failing)
        waiting).0
      ≡ some claimed)
    × (attempt failing claimed ≡ HandlerResult.threw error)
    × ((classify_job_failure error).retryable ≡ true)
    × (claimed.event.attempt_count < claimed.job.max_attempts)
unfolding process_next process_claimed claim_next_by_type claim_found find_row is_claimable
    ensure_job replace_row attempt assert_safe_job_payload check_job_entries settle is_terminal
    classify_job_failure schedule_retry apply_outcome holds_event
retry_is_bounded_example =
    retry_is_bounded runtime.clock_at 50 (λ n. 7) failing waiting after_failure refl
