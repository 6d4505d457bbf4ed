-- ===== src/Jobs/Processor.antt =====
-- packages/application/src/jobs/process-outbox.ts, with packages/domain/src/jobs/failures.ts. The
-- clock's readings are numbered, and the delay before a retry is an argument.
pub mod Outcomes
use Prim.Native.String.{◌++◌}
use bug_free_fiesta.Domain.Errors.{ok, err, Result, ApplicationError, ApplicationErrorKind}
use bug_free_fiesta.Prelude.{
  leb, ◌+◌, none, false, ◌||◌, some, true, Option, not, String, if◌then◌else◌, ℕ, Bool,
}
use bug_free_fiesta.Jobs.Claimer.{
  ClaimInput, schedule_retry, mark_dead_lettered, mark_processed, claim_next_by_type, Settlement,
  Outbox, ClaimedOutboxWork,
}
use bug_free_fiesta.Domain.Statuses.{JobErrorCategory}
use bug_free_fiesta.Domain.Payload.{assert_safe_job_payload}

-- What the handler of a job throws: an application error, or anything else.
pub data Thrown : Type 0 where
  application : ApplicationError → Thrown
  unknown : Thrown

pub data HandlerResult : Type 0 where
  returned : HandlerResult
  threw : Thrown → HandlerResult

pub record ClassifiedJobFailure : Type 0 where
  pub category : JobErrorCategory
  pub code : String
  pub retryable : Bool

abbrev kind_text : ApplicationErrorKind → String
kind_text ApplicationErrorKind.validation = "validation"
kind_text ApplicationErrorKind.authentication = "authentication"
kind_text ApplicationErrorKind.authorization = "authorization"
kind_text ApplicationErrorKind.not_found = "not_found"
kind_text ApplicationErrorKind.conflict = "conflict"
kind_text ApplicationErrorKind.invalid_state_transition = "invalid_state_transition"
kind_text ApplicationErrorKind.integrity = "integrity"
kind_text ApplicationErrorKind.external_service = "external_service"
kind_text ApplicationErrorKind.rate_limit = "rate_limit"

abbrev is_retryable : ApplicationErrorKind → Bool
is_retryable ApplicationErrorKind.external_service = true
is_retryable ApplicationErrorKind.rate_limit = true
is_retryable ApplicationErrorKind.conflict = true
is_retryable _ = false

unfoldable pub classify_job_failure : Thrown → ClassifiedJobFailure
classify_job_failure (application error) = record {
  category =
      if is_retryable error.kind
      then JobErrorCategory.retryable
      else JobErrorCategory.non_retryable;
  code = kind_text error.kind;
  retryable = is_retryable error.kind;
}
classify_job_failure unknown = record {
  category = JobErrorCategory.retryable;
  code = "unknown";
  retryable = true;
}

abbrev category_text : JobErrorCategory → String
category_text JobErrorCategory.retryable = "retryable:"
category_text JobErrorCategory.non_retryable = "non_retryable:"

abbrev format_job_error_code : ClassifiedJobFailure → String
format_job_error_code classified = category_text classified.category ++ classified.code

pub data ProcessOutcome : Type 0 where
  idle succeeded retry_scheduled dead_lettered : ProcessOutcome

pub record ProcessInput : Type 0 where
  pub type : String
  pub owner : String
  pub handler : ClaimedOutboxWork → HandlerResult

-- The body of the `try`: the handler of an unsafe payload is not called.
abbrev attempted : ProcessInput → ClaimedOutboxWork → Result (Unit {0}) → HandlerResult
attempted input claimed (err e) = threw (application e)
attempted input claimed (ok _) = input.handler claimed

unfoldable pub attempt : ProcessInput → ClaimedOutboxWork → HandlerResult
attempt input claimed = attempted input claimed (assert_safe_job_payload claimed.event.payload)

abbrev pub settlement_of : ProcessInput → ClaimedOutboxWork → Settlement
settlement_of input claimed = record {
  organization_id = claimed.event.organization_id;
  outbox_event_id = claimed.event.id;
  job_id = claimed.job.id;
  owner = input.owner;
}

unfoldable pub is_terminal : ClaimedOutboxWork → Thrown → Bool
is_terminal claimed error =
    not (classify_job_failure error).retryable
    || leb claimed.job.max_attempts claimed.event.attempt_count

-- The claim that a pass makes, at the first reading of the clock.
abbrev pub claim_of : (ℕ → ℕ) → ℕ → ProcessInput → ClaimInput
claim_of clock lease_ms input = record {
  type = input.type;
  now = clock 0;
  owner = input.owner;
  lease_until = clock 0 + lease_ms;
}

module _ (clock : ℕ → ℕ) (lease_ms : ℕ) (delay_ms : ℕ → ℕ) where
  -- After the attempt: the third reading of the clock.
  unfoldable pub settle :
      ProcessInput → ClaimedOutboxWork → HandlerResult → Outbox → ProcessOutcome × Outbox
  settle input claimed returned outbox =
      (succeeded, mark_processed (settlement_of input claimed) (clock 2) outbox)
  settle input claimed (threw error) outbox =
      let code = format_job_error_code (classify_job_failure error) in
      if is_terminal claimed error
      then (dead_lettered, mark_dead_lettered (settlement_of input claimed) code outbox)
      else (
        retry_scheduled,
        schedule_retry (settlement_of input claimed) code
            (clock 2 + delay_ms claimed.event.attempt_count) outbox,
      )

  unfoldable pub process_claimed :
      ProcessInput → Option ClaimedOutboxWork × Outbox → ProcessOutcome × Outbox
  process_claimed input (none, outbox) = (idle, outbox)
  process_claimed input (some claimed, outbox) = settle input claimed (attempt input claimed) outbox

  unfoldable pub process_next : Bool → ProcessInput → Outbox → ProcessOutcome × Outbox
  process_next should_stop input outbox =
      if should_stop
      then (idle, outbox)
      else process_claimed input (claim_next_by_type (claim_of clock lease_ms input) outbox)
