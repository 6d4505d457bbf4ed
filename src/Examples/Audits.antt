-- ===== src/Examples/Audits.antt =====
-- The log of one document, and the verification of it.
use bug_free_fiesta.Audit.Verify.Artifacts.{AsRecorded}
use bug_free_fiesta.Audit.Verify.Accepts.{chain_failures_iff}
use bug_free_fiesta.Domain.Statuses.{document_finalized, worker}
use bug_free_fiesta.Domain.Json.{prop, string, end}
use bug_free_fiesta.Audit.Verify.{AuditEvidence, chain_failures}
use bug_free_fiesta.Domain.Entities.{AuditEvent}
use bug_free_fiesta.Examples.Parties.{runtime}
use bug_free_fiesta.Prelude.{All, none, ◌↔◌, ◌≡◌, true, [], ◌∷◌, some}
use bug_free_fiesta.Domain.Errors.{ok}
use bug_free_fiesta.Store.Ledger.Chain.{ChainFrom}
use bug_free_fiesta.Store.Ledger.{genesis_previous_event_hash}

abbrev sealed : AuditEvent
sealed = record {
  id = "event";
  organization_id = "org";
  document_id = "doc";
  sequence = 0;
  type = document_finalized;
  actor_type = worker;
  actor_id = "flattener";
  occurred_at = 5;
  payload = prop "finalizedSha256" (string "sum") end;
  previous_event_hash = genesis_previous_event_hash;
  event_hash = "digest";
  request_id = none;
  chain_version = 1;
  created_at = 5;
}

abbrev stored_evidence : AuditEvidence
stored_evidence = record {
  artifact = some (record { object_key = "org/file"; sha256_digest = "sum" });
  get_object = λ key. some (1 ∷ 2 ∷ []);
  sha256_hex = λ body. "sum";
  checkpoints_enabled = true;
  latest_checkpoint = ok none;
  put_checkpoint = λ checkpoint. ok tt;
}

chain_failures_iff_example :
    (chain_failures runtime.iso runtime.sha256_json stored_evidence "org" sealed [] ≡ ok []) ↔ (
      ChainFrom runtime.iso runtime.sha256_json 0 genesis_previous_event_hash (sealed ∷ [])
      × All (AsRecorded stored_evidence "org") (sealed ∷ []))
chain_failures_iff_example =
    chain_failures_iff runtime.iso runtime.sha256_json stored_evidence "org" sealed []
