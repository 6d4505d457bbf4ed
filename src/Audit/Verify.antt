-- ===== src/Audit/Verify.antt =====
-- packages/application/src/audit/verify-audit-chain.ts: the verification of one document's events. The
-- artifacts, the object storage and the checkpoint store are arguments; metrics and alerts are left out.
pub mod Artifacts
pub mod Accepts
use bug_free_fiesta.Prelude.{
  option_str_eq, ◌++◌, ◌||◌, not, any, ◌&&◌, length, leb, true, str_eq, ltb, ◌+◌, some,
  if◌then◌else◌, ◌∷◌, ◌==◌, [], none, Bool, List, String, ℕ, Option, false,
}
use bug_free_fiesta.Domain.Entities.{AuditEvent}
use bug_free_fiesta.Domain.Errors.{succeeds, ◌>>=◌, err, ok, Result}
use bug_free_fiesta.Store.Rows.{find_row}
use bug_free_fiesta.Domain.Json.{end, string, prop, Props, Json}
use bug_free_fiesta.Store.Ledger.Chain.{hash_of_stored}
use bug_free_fiesta.Domain.Canonical.{audit_event_type_text}
use bug_free_fiesta.Store.Ledger.{genesis_previous_event_hash}
use bug_free_fiesta.Domain.ObjectKeys.{artifact_object_key}
use bug_free_fiesta.Domain.Payload.{assert_approved_audit_payload}

pub data FailureCode : Type 0 where
  empty_chain sequence_reorder sequence_gap unsupported_schema_version : FailureCode
  genesis_previous_hash_mismatch previous_hash_mismatch forbidden_payload_field : FailureCode
  hash_mismatch artifact_missing artifact_digest_mismatch checkpoint_mismatch : FailureCode

abbrev failure_code_index : FailureCode → ℕ
failure_code_index empty_chain = 0
failure_code_index sequence_reorder = 1
failure_code_index sequence_gap = 2
failure_code_index unsupported_schema_version = 3
failure_code_index genesis_previous_hash_mismatch = 4
failure_code_index previous_hash_mismatch = 5
failure_code_index forbidden_payload_field = 6
failure_code_index hash_mismatch = 7
failure_code_index artifact_missing = 8
failure_code_index artifact_digest_mismatch = 9
failure_code_index checkpoint_mismatch = 10

-- The document of a failure is that of the report.
pub record Failure : Type 0 where
  pub code : FailureCode
  pub sequence : Option ℕ
  pub event_id : Option String

pub data WarningCode : Type 0 where
  checkpoint_anchoring_disabled checkpoint_store_unavailable : WarningCode

abbrev failure : FailureCode → AuditEvent → Failure
failure code event = record {
  code = code;
  sequence = some event.sequence;
  event_id = some event.id;
}

-- `failures.push(…)` under a condition
abbrev pub when : Bool → FailureCode → AuditEvent → List Failure
when true code event = failure code event ∷ []
when false code event = []

pub record Artifact : Type 0 where
  pub object_key : String
  pub sha256_digest : String

pub record Checkpoint : Type 0 where
  pub sequence : ℕ
  pub event_hash : String

-- `artifacts.findByDocument`, `storage.getObject`, `sha256Hex`, and the checkpoint store, whose calls
-- may throw.
pub record AuditEvidence : Type 0 where
  pub artifact : Option Artifact
  pub get_object : String → Option (List ℕ)
  pub sha256_hex : List ℕ → String
  pub checkpoints_enabled : Bool
  pub latest_checkpoint : Result (Option Checkpoint)
  pub put_checkpoint : Checkpoint → Result (Unit {0})

abbrev pub text_value : Json → Option String
text_value (string text) = some text
text_value _ = none

abbrev pub text_property : String → Props → Option String
text_property key end = none
text_property key (prop other value rest) =
    if str_eq other key then text_value value else text_property key rest

abbrev pub is_other : Option String → String → Bool
is_other none digest = false
is_other (some expected) digest = not (str_eq digest expected)

-- `stored?.body ? stored.body : …`
unfoldable pub artifact_body : AuditEvidence → String → Artifact → Result (Option (List ℕ))
artifact_body evidence organization_id artifact = elim (evidence.get_object artifact.object_key) [
  | some body ↦ ok (some body)
  | none ↦ do
    key ← artifact_object_key organization_id artifact.sha256_digest
    ok (evidence.get_object key)
]

abbrev pub body_failures : AuditEvidence → Artifact → AuditEvent → Option (List ℕ) → List Failure
body_failures evidence artifact event none = failure artifact_missing event ∷ []
body_failures evidence artifact event (some body) =
    when (not (str_eq (evidence.sha256_hex body) artifact.sha256_digest)) artifact_digest_mismatch
      event

unfoldable pub verify_finalized_artifact :
    AuditEvidence → String → AuditEvent → Option Artifact → Result (List Failure)
unfolding artifact_body
verify_finalized_artifact evidence organization_id event none =
    ok (failure artifact_missing event ∷ [])
verify_finalized_artifact evidence organization_id event (some artifact) = do
  body ← artifact_body evidence organization_id artifact
  ok (
      when (is_other (text_property "finalizedSha256" event.payload) artifact.sha256_digest)
        artifact_digest_mismatch event
      ++ body_failures evidence artifact event body)

-- `events.sort((left, right) => left.sequence - right.sequence)`, which is stable
unfoldable pub insert_by_sequence : AuditEvent → List AuditEvent → List AuditEvent
insert_by_sequence event [] = event ∷ []
insert_by_sequence event (other ∷ rest) =
    if leb event.sequence other.sequence
    then event ∷ other ∷ rest
    else other ∷ insert_by_sequence event rest

unfoldable pub sort_by_sequence : List AuditEvent → List AuditEvent
unfolding insert_by_sequence
sort_by_sequence [] = []
sort_by_sequence (event ∷ events) = insert_by_sequence event (sort_by_sequence events)

-- The first event that does not have the number of its place.
unfoldable pub first_misplaced : ℕ → List AuditEvent → Option AuditEvent
first_misplaced index [] = none
first_misplaced index (event ∷ events) =
    if event.sequence == index then first_misplaced (index + 1) events else some event

-- Some number is smaller than the one before it.
unfoldable pub is_reordered : List AuditEvent → Bool
is_reordered [] = false
is_reordered (event ∷ []) = false
is_reordered (event ∷ next ∷ events) =
    ltb next.sequence event.sequence || is_reordered (next ∷ events)

abbrev order_failures : AuditEvent → List AuditEvent → Option AuditEvent → List Failure
order_failures first events none = []
order_failures first events (some misplaced) =
    if is_reordered events
    then failure sequence_reorder first ∷ []
    else failure sequence_gap misplaced ∷ []

module _ (iso : ℕ → String) (sha256_json : Json → String) where
  abbrev has_own_hash : AuditEvent → Bool
  has_own_hash event = elim (hash_of_stored iso sha256_json event) [
    | err e ↦ false
    | ok expected ↦ str_eq expected event.event_hash
  ]

  -- The checks of one event, with the hash of the event before it.
  unfoldable pub event_failures : Bool → String → AuditEvent → List Failure
  event_failures is_first expected_previous event =
      when (not (event.chain_version == 1)) unsupported_schema_version event
      ++ (when (not (str_eq event.previous_event_hash expected_previous))
            (if is_first then genesis_previous_hash_mismatch else previous_hash_mismatch) event
          ++ (when (not (succeeds (assert_approved_audit_payload event.payload)))
                forbidden_payload_field event
              ++ when (not (has_own_hash event)) hash_mismatch event))

  unfoldable pub finalized_failures : AuditEvidence → String → AuditEvent → Result (List Failure)
  unfolding verify_finalized_artifact
  finalized_failures evidence organization_id event =
      if str_eq (audit_event_type_text event.type) "document_finalized"
      then verify_finalized_artifact evidence organization_id event evidence.artifact
      else ok []

  -- The loop over the sorted events.
  unfoldable pub all_event_failures :
      AuditEvidence → String → Bool → String → List AuditEvent → Result (List Failure)
  unfolding event_failures finalized_failures
  all_event_failures evidence organization_id is_first expected_previous [] = ok []
  all_event_failures evidence organization_id is_first expected_previous (event ∷ events) = do
    finalized ← finalized_failures evidence organization_id event
    rest ← all_event_failures evidence organization_id false event.event_hash events
    ok (event_failures is_first expected_previous event ++ (finalized ++ rest))

  -- The failures of the order and of the events, before the checkpoint is compared.
  unfoldable pub chain_failures :
      AuditEvidence → String → AuditEvent → List AuditEvent → Result (List Failure)
  unfolding sort_by_sequence first_misplaced is_reordered all_event_failures
  chain_failures evidence organization_id first others = do
    found ←
        all_event_failures evidence organization_id true genesis_previous_event_hash
          (sort_by_sequence (first ∷ others))
    ok (order_failures first (first ∷ others) (first_misplaced 0 (first ∷ others)) ++ found)

-- The checkpoint, against the event with its number.
abbrev anchored_failures : Checkpoint → Option AuditEvent → List Failure
anchored_failures anchored none =
    record { code = checkpoint_mismatch; sequence = none; event_id = none } ∷ []
anchored_failures anchored (some event) =
    when (not (str_eq event.event_hash anchored.event_hash)) checkpoint_mismatch event

abbrev compared : Result (Option Checkpoint) → List AuditEvent → List Failure × List WarningCode
compared (err e) events = ([], checkpoint_store_unavailable ∷ [])
compared (ok none) events = ([], [])
compared (ok (some anchored)) events = (
  anchored_failures anchored (find_row (λ event. event.sequence == anchored.sequence) events),
  [],
)

unfoldable pub compare_checkpoint :
    AuditEvidence → List AuditEvent → List Failure × List WarningCode
unfolding find_row
compare_checkpoint evidence events =
    if evidence.checkpoints_enabled
    then compared evidence.latest_checkpoint events
    else ([], checkpoint_anchoring_disabled ∷ [])

abbrev option_eq : Option ℕ → Option ℕ → Bool
option_eq none none = true
option_eq (some a) (some b) = a == b
option_eq _ _ = false

abbrev same_failure : Failure → Failure → Bool
same_failure a b =
    failure_code_index a.code == failure_code_index b.code
    && option_eq a.sequence b.sequence
    && option_str_eq a.event_id b.event_id

unfoldable pub dedupe_failures : List Failure → List Failure → List Failure
dedupe_failures seen [] = []
dedupe_failures seen (item ∷ failures) =
    if any (same_failure item) seen
    then dedupe_failures seen failures
    else item ∷ dedupe_failures (item ∷ seen) failures

pub record AuditVerificationReport : Type 0 where
  pub accepted : Bool
  pub event_count : ℕ
  pub head_event_hash : Option String
  pub head_sequence : Option ℕ
  pub failures : List Failure
  pub warnings : List WarningCode

abbrev empty_report : AuditVerificationReport
empty_report = record {
  accepted = false;
  event_count = 0;
  head_event_hash = none;
  head_sequence = none;
  failures = record { code = empty_chain; sequence = none; event_id = none } ∷ [];
  warnings = [];
}

-- The last of the sorted events.
abbrev last_event : AuditEvent → List AuditEvent → AuditEvent
last_event event [] = event
last_event event (next ∷ events) = last_event next events

abbrev head_of : AuditEvent → List AuditEvent → AuditEvent
head_of first [] = first
head_of first (event ∷ events) = last_event event events

abbrev anchoring : Result (Unit {0}) → List WarningCode
anchoring (ok x) = []
anchoring (err e) = checkpoint_store_unavailable ∷ []

unfoldable pub report_of :
    AuditEvidence → AuditEvent → ℕ → List Failure → List WarningCode → AuditVerificationReport
unfolding dedupe_failures
report_of evidence head event_count failures warnings =
    let unique = dedupe_failures [] failures in
    record {
      accepted = length unique == 0;
      event_count = event_count;
      head_event_hash = some head.event_hash;
      head_sequence = some head.sequence;
      failures = unique;
      warnings =
          warnings
          ++ (if length unique == 0 && evidence.checkpoints_enabled
              then anchoring (
                  evidence.put_checkpoint
                    (record { sequence = head.sequence; event_hash = head.event_hash }))
              else []);
    }

module _ (iso : ℕ → String) (sha256_json : Json → String) where
  unfoldable pub verify_events :
      AuditEvidence → String → List AuditEvent → Result AuditVerificationReport
  unfolding chain_failures compare_checkpoint report_of
  verify_events evidence organization_id [] = ok empty_report
  verify_events evidence organization_id (first ∷ others) = do
    found ← chain_failures iso sha256_json evidence organization_id first others
    let sorted = sort_by_sequence (first ∷ others)
    let checkpoint = compare_checkpoint evidence sorted
    ok (
        report_of evidence (head_of first sorted) (length (first ∷ others)) (found ++ checkpoint.0)
          checkpoint.1)
