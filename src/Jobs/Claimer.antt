-- ===== src/Jobs/Claimer.antt =====
-- packages/application/src/jobs/memory-claimer.ts. The calls are serialized there by a chain of
-- promises, and are the steps of a sequence here.
use bug_free_fiesta.Domain.Statuses.{
  background_job_status_eq, outbox_status_eq, OutboxStatus, BackgroundJobStatus,
}
use bug_free_fiesta.Store.Rows.{find_row, replace_row}
use bug_free_fiesta.Store.Ledger.{default_job_max_attempts}
use bug_free_fiesta.Domain.Entities.{BackgroundJob, OutboxEvent}
use bug_free_fiesta.Prelude.{
  ◌||◌, leb, ltb, ◌&&◌, ◌++◌, ◌+◌, [], any, ◌∷◌, if◌then◌else◌, false, option_str_eq, some, str_eq,
  none, String, Option, List, ℕ, Bool,
}

abbrev pub Outbox : Type 0
Outbox = List OutboxEvent × List BackgroundJob

pub record ClaimInput : Type 0 where
  pub type : String
  pub now : ℕ
  pub owner : String
  pub lease_until : ℕ

pub record ClaimedOutboxWork : Type 0 where
  pub event : OutboxEvent
  pub job : BackgroundJob
  pub lease_recovered : Bool

-- `leaseUntil !== null && leaseUntil.getTime() < now.getTime()`
abbrev is_lapsed : Option ℕ → ℕ → Bool
is_lapsed none now = false
is_lapsed (some until) now = ltb until now

unfoldable pub is_claimable : ClaimInput → OutboxEvent → Bool
is_claimable input row =
    str_eq row.type input.type
    && leb row.available_at input.now
    && (outbox_status_eq row.status OutboxStatus.pending
        || (outbox_status_eq row.status OutboxStatus.processing
            && is_lapsed row.lease_until input.now))

abbrev pub job_of_event : OutboxEvent → ℕ → BackgroundJob
job_of_event event now = record {
  id = event.id;
  organization_id = event.organization_id;
  document_id = event.document_id;
  outbox_event_id = some event.id;
  type = event.type;
  status = BackgroundJobStatus.pending;
  attempt_count = 0;
  max_attempts = default_job_max_attempts;
  lease_owner = none;
  lease_until = none;
  available_at = event.available_at;
  last_error_code = none;
  request_id = event.request_id;
  version = 1;
  created_at = now;
  updated_at = now;
}

abbrev found_or_created :
    OutboxEvent → ℕ → List BackgroundJob → Option BackgroundJob → BackgroundJob × List BackgroundJob
found_or_created event now jobs (some existing) = (existing, jobs)
found_or_created event now jobs none = (job_of_event event now, jobs ++ job_of_event event now ∷ [])

unfoldable pub ensure_job :
    OutboxEvent → ℕ → List BackgroundJob → BackgroundJob × List BackgroundJob
ensure_job event now jobs =
    found_or_created event now jobs
      (find_row (λ row. option_str_eq row.outbox_event_id (some event.id)) jobs)

abbrev pub claimed_event : ClaimInput → OutboxEvent → OutboxEvent
claimed_event input event = record event {
  status = OutboxStatus.processing;
  lease_owner = some input.owner;
  lease_until = some input.lease_until;
  attempt_count = event.attempt_count + 1;
  updated_at = input.now;
}

abbrev pub claimed_job : ClaimInput → BackgroundJob → BackgroundJob
claimed_job input job = record job {
  status = BackgroundJobStatus.leased;
  lease_owner = some input.owner;
  lease_until = some input.lease_until;
  attempt_count = job.attempt_count + 1;
  version = job.version + 1;
  updated_at = input.now;
}

unfoldable pub claim_found :
    ClaimInput → Option OutboxEvent → Outbox → Option ClaimedOutboxWork × Outbox
claim_found input none outbox = (none, outbox)
claim_found input (some event) (events, jobs) =
    let (job, ensured) = ensure_job event input.now jobs in
    (
      some (record {
        event = claimed_event input event;
        job = claimed_job input job;
        lease_recovered = outbox_status_eq event.status OutboxStatus.processing;
      }),
      (
        replace_row (is_claimable input) (claimed_event input event) events,
        replace_row (λ row. str_eq row.id job.id) (claimed_job input job) ensured,
      ),
    )

unfoldable pub claim_next_by_type : ClaimInput → Outbox → Option ClaimedOutboxWork × Outbox
claim_next_by_type input outbox = claim_found input (find_row (is_claimable input) outbox.0) outbox

-- The ids by which a worker settles what it has claimed.
pub record Settlement : Type 0 where
  pub organization_id : String
  pub outbox_event_id : String
  pub job_id : String
  pub owner : String

unfoldable pub holds_event : Settlement → OutboxEvent → Bool
holds_event input row =
    str_eq row.id input.outbox_event_id
    && str_eq row.organization_id input.organization_id
    && option_str_eq row.lease_owner (some input.owner)
    && outbox_status_eq row.status OutboxStatus.processing

unfoldable pub holds_job : Settlement → BackgroundJob → Bool
holds_job input row =
    str_eq row.id input.job_id
    && str_eq row.organization_id input.organization_id
    && option_str_eq row.lease_owner (some input.owner)

-- `rows[index] = update(rows[index])` at the first row that fits, if one does.
unfoldable pub update_first {ℓ} : {A : Type ℓ} → (A → Bool) → (A → A) → List A → List A
update_first p f [] = []
update_first p f (row ∷ rows) = if p row then f row ∷ rows else row ∷ update_first p f rows

abbrev processed_event : ℕ → OutboxEvent → OutboxEvent
processed_event processed_at event = record event {
  status = OutboxStatus.processed;
  processed_at = some processed_at;
  lease_owner = none;
  lease_until = none;
  updated_at = processed_at;
}

abbrev succeeded_job : ℕ → BackgroundJob → BackgroundJob
succeeded_job processed_at job = record job {
  status = BackgroundJobStatus.succeeded;
  lease_owner = none;
  lease_until = none;
  version = job.version + 1;
  updated_at = processed_at;
}

unfoldable pub mark_processed : Settlement → ℕ → Outbox → Outbox
mark_processed input processed_at (events, jobs) =
    if any (holds_event input) events
    then (
      update_first (holds_event input) (processed_event processed_at) events,
      update_first
          (λ row.
            holds_job input row && background_job_status_eq row.status BackgroundJobStatus.leased)
          (succeeded_job processed_at) jobs,
    )
    else (events, jobs)

abbrev or_else {ℓ} : {A : Type ℓ} → Option A → A → A
or_else none d = d
or_else (some a) d = a

abbrev settled_event : OutboxStatus → String → Option ℕ → OutboxEvent → OutboxEvent
settled_event status error_code available_at event = record event {
  status = status;
  last_error_code = some error_code;
  lease_owner = none;
  lease_until = none;
  available_at = or_else available_at event.available_at;
  updated_at = or_else available_at event.updated_at;
}

abbrev settled_job : BackgroundJobStatus → String → Option ℕ → ℕ → BackgroundJob → BackgroundJob
settled_job status error_code available_at now job = record job {
  status = status;
  last_error_code = some error_code;
  lease_owner = none;
  lease_until = none;
  available_at = or_else available_at job.available_at;
  version = job.version + 1;
  updated_at = now;
}

abbrev apply_found :
    Settlement
    → String
    → OutboxStatus
    → BackgroundJobStatus
    → Option ℕ
    → Option OutboxEvent
    → Outbox
    → Outbox
apply_found input error_code outbox_status job_status available_at none outbox = outbox
apply_found input error_code outbox_status job_status available_at (some event) (events, jobs) = (
  replace_row (holds_event input) (settled_event outbox_status error_code available_at event)
      events,
  update_first (holds_job input)
      (settled_job job_status error_code available_at (or_else available_at event.updated_at)) jobs,
)

unfoldable pub apply_outcome :
    Settlement → String → OutboxStatus → BackgroundJobStatus → Option ℕ → Outbox → Outbox
apply_outcome input error_code outbox_status job_status available_at outbox =
    apply_found input error_code outbox_status job_status available_at
      (find_row (holds_event input) outbox.0) outbox

unfoldable pub schedule_retry : Settlement → String → ℕ → Outbox → Outbox
schedule_retry input error_code available_at =
    apply_outcome input error_code OutboxStatus.pending BackgroundJobStatus.pending
      (some available_at)

unfoldable pub mark_dead_lettered : Settlement → String → Outbox → Outbox
mark_dead_lettered input error_code =
    apply_outcome input error_code OutboxStatus.failed BackgroundJobStatus.failed none
