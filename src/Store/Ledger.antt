-- ===== src/Store/Ledger.antt =====
-- The append-only stores of packages/application/src/documents/memory-adapters.ts: the audit log, the
-- outbox and the idempotency records. `iso` and `sha256_json` are those of the canonical form.
pub mod Chain
use bug_free_fiesta.Domain.Errors.{
  ◌>>=◌, throw_if, ◌>>◌, Result, ok, err, ApplicationError, conflict_error, not_found_error,
}
use bug_free_fiesta.Domain.Entities.{
  AuditEvent, OutboxEvent, BackgroundJob, IdempotencyRecord, Payload,
}
use bug_free_fiesta.Store.Rows.{find_row, update_row}
use bug_free_fiesta.Prelude.{
  any, ltb, ◌++◌, if◌then◌else◌, [], ◌&&◌, ◌∷◌, str_eq, ◌+◌, keep_if, none, Bool, Option, ℕ, some,
  String, List,
}
use bug_free_fiesta.Domain.Json.{Json}
use bug_free_fiesta.Domain.Statuses.{
  OutboxStatus, BackgroundJobStatus, AuditActorType, AuditEventType,
}
use bug_free_fiesta.Domain.Payload.{assert_safe_job_payload, assert_approved_audit_payload}
use bug_free_fiesta.Domain.Canonical.{
  actor_type_text, audit_event_type_text, compute_audit_event_hash,
}

-- `AUDIT_GENESIS_PREVIOUS_EVENT_HASH`
abbrev pub genesis_previous_event_hash : String
genesis_previous_event_hash = "0000000000000000000000000000000000000000000000000000000000000000"

pub record ChainKey : Type 0 where
  pub organization_id : String
  pub document_id : String

unfoldable pub in_chain : ChainKey → AuditEvent → Bool
in_chain key row =
    str_eq row.organization_id key.organization_id && str_eq row.document_id key.document_id

unfoldable pub events_of_document : ChainKey → List AuditEvent → List AuditEvent
unfolding in_chain
events_of_document key = keep_if (in_chain key)

-- `matching.reduce((head, row) => (row.sequence > head.sequence ? row : head))`
unfoldable pub latest_from : AuditEvent → List AuditEvent → AuditEvent
latest_from head [] = head
latest_from head (row ∷ rows) =
    latest_from (if ltb head.sequence row.sequence then row else head) rows

unfoldable pub latest : List AuditEvent → Option AuditEvent
unfolding latest_from
latest [] = none
latest (row ∷ rows) = some (latest_from row rows)

unfoldable pub find_latest : ChainKey → List AuditEvent → Option AuditEvent
unfolding latest events_of_document
find_latest key rows = latest (events_of_document key rows)

-- The argument of `audit.append`
pub record AuditAppendInput : Type 0 where
  pub id : String
  pub organization_id : String
  pub document_id : String
  pub type : AuditEventType
  pub actor_type : AuditActorType
  pub actor_id : String
  pub occurred_at : ℕ
  pub payload : Payload
  pub request_id : Option String

abbrev pub chain_of : AuditAppendInput → ChainKey
chain_of event = record { organization_id = event.organization_id; document_id = event.document_id }

abbrev pub next_sequence : Option AuditEvent → ℕ
next_sequence none = 0
next_sequence (some head) = head.sequence + 1

abbrev pub next_previous_hash : Option AuditEvent → String
next_previous_hash none = genesis_previous_event_hash
next_previous_hash (some head) = head.event_hash

abbrev pub stored_event : AuditAppendInput → Option AuditEvent → String → AuditEvent
stored_event event head event_hash = record {
  id = event.id;
  organization_id = event.organization_id;
  document_id = event.document_id;
  sequence = next_sequence head;
  type = event.type;
  actor_type = event.actor_type;
  actor_id = event.actor_id;
  occurred_at = event.occurred_at;
  payload = event.payload;
  previous_event_hash = next_previous_hash head;
  event_hash = event_hash;
  request_id = event.request_id;
  chain_version = 1;
  created_at = event.occurred_at;
}

module _ (iso : ℕ → String) (sha256_json : Json → String) where
  abbrev pub hash_of_event : AuditAppendInput → ℕ → String → Result String
  hash_of_event event sequence previous_event_hash =
      compute_audit_event_hash iso sha256_json (record {
        schema_version = 1;
        previous_event_hash = previous_event_hash;
        sequence = sequence;
        type = audit_event_type_text event.type;
        actor_type = actor_type_text event.actor_type;
        actor_id = event.actor_id;
        occurred_at = event.occurred_at;
        payload = event.payload;
      })

  unfoldable pub append_audit :
      AuditAppendInput → List AuditEvent → Result (AuditEvent × List AuditEvent)
  unfolding find_latest
  append_audit event rows = do
    assert_approved_audit_payload event.payload
    let head =
        find_latest
          (record { organization_id = event.organization_id; document_id = event.document_id }) rows
    event_hash ← hash_of_event event (next_sequence head) (next_previous_hash head)
    let stored = stored_event event head event_hash
    ok (stored, rows ++ stored ∷ [])

-- The argument of `jobs.publish`
pub record JobPublishInput : Type 0 where
  pub id : String
  pub organization_id : String
  pub document_id : Option String
  pub type : String
  pub payload : Payload
  pub request_id : Option String
  pub available_at : Option ℕ
  pub job_id : Option String
  pub max_attempts : Option ℕ

abbrev pub default_job_max_attempts : ℕ
default_job_max_attempts = 8

abbrev or_else {ℓ} : {A : Type ℓ} → Option A → A → A
or_else none d = d
or_else (some a) d = a

abbrev event_of_input : JobPublishInput → OutboxEvent
event_of_input input =
    let at = or_else input.available_at 0 in
    record {
      id = input.id;
      organization_id = input.organization_id;
      document_id = input.document_id;
      type = input.type;
      status = OutboxStatus.pending;
      payload = input.payload;
      request_id = input.request_id;
      attempt_count = 0;
      lease_owner = none;
      lease_until = none;
      available_at = at;
      processed_at = none;
      last_error_code = none;
      created_at = at;
      updated_at = at;
    }

abbrev job_of_input : JobPublishInput → BackgroundJob
job_of_input input =
    let at = or_else input.available_at 0 in
    record {
      id = or_else input.job_id input.id;
      organization_id = input.organization_id;
      document_id = input.document_id;
      outbox_event_id = some input.id;
      type = input.type;
      status = BackgroundJobStatus.pending;
      attempt_count = 0;
      max_attempts = or_else input.max_attempts default_job_max_attempts;
      lease_owner = none;
      lease_until = none;
      available_at = at;
      last_error_code = none;
      request_id = input.request_id;
      version = 1;
      created_at = at;
      updated_at = at;
    }

unfoldable pub publish_job :
    JobPublishInput
    → List OutboxEvent × List BackgroundJob
    → Result (OutboxEvent × (List OutboxEvent × List BackgroundJob))
publish_job input (events, jobs) = do
  assert_safe_job_payload input.payload
  ok (event_of_input input, (events ++ event_of_input input ∷ [], jobs ++ job_of_input input ∷ []))

pub record IdempotencyScope : Type 0 where
  pub organization_id : String
  pub principal_id : String
  pub route : String
  pub key : String

unfoldable pub in_scope : IdempotencyScope → IdempotencyRecord → Bool
in_scope scope row =
    str_eq row.organization_id scope.organization_id
    && str_eq row.principal_id scope.principal_id
    && str_eq row.route scope.route
    && str_eq row.key scope.key

unfoldable pub find_idempotency :
    IdempotencyScope → List IdempotencyRecord → Option IdempotencyRecord
find_idempotency scope = find_row (in_scope scope)

unfoldable pub create_idempotency :
    String
    → IdempotencyRecord
    → List IdempotencyRecord
    → Result (IdempotencyRecord × List IdempotencyRecord)
unfolding in_scope
create_idempotency organization_id row rows = do
  throw_if
      (any
        (in_scope (record {
          organization_id = organization_id;
          principal_id = row.principal_id;
          route = row.route;
          key = row.key;
        }))
        rows)
      (conflict_error (("reason", "idempotency_key") ∷ []))
  ok (row, rows ++ row ∷ [])

unfoldable pub complete_idempotency :
    String
    → String
    → ℕ
    → Payload
    → List IdempotencyRecord
    → Result (IdempotencyRecord × List IdempotencyRecord)
complete_idempotency organization_id record_id response_status response_body =
    update_row (λ row. str_eq row.organization_id organization_id && str_eq row.id record_id)
      (not_found_error (("resource", "idempotency_record") ∷ []))
      (λ current. ok (record current {
        response_status = some response_status;
        response_body = some response_body;
      }))
