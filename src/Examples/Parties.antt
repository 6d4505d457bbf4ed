-- ===== src/Examples/Parties.antt =====
-- The rows that the examples are about: a document that was sent to two signers, in order, and the
-- exchanged session of the first.
use bug_free_fiesta.Domain.Entities.{Document, Signer, SigningSession}
use bug_free_fiesta.Domain.Statuses.{
  DocumentState, SigningMode, DocumentInspectionStatus, SignerStatus, SigningSessionStatus,
}
use bug_free_fiesta.Program.{Repositories, Runtime}
use bug_free_fiesta.Signing.Checks.{EnvelopePolicy}
use bug_free_fiesta.Prelude.{[], ℕ, false, ◌+◌, ◌∷◌, none, String, some}

abbrev pub lease : Document
lease = record {
  id = "doc";
  organization_id = "org";
  owner_membership_id = "member";
  title = "Lease";
  state = DocumentState.sent;
  signing_mode = SigningMode.ordered;
  inspection_status = DocumentInspectionStatus.accepted;
  source_display_name = some "lease.pdf";
  expires_at = none;
  current_revision_id = some "revision";
  signing_revision_id = some "revision";
  version = 3;
  lease_owner = none;
  lease_until = none;
  finalization_attempt_count = 0;
  created_at = 0;
  updated_at = 0;
}

abbrev signer_at : String → ℕ → Signer
signer_at id order = record {
  id = id;
  organization_id = "org";
  document_id = "doc";
  account_user_id = none;
  routing_order = order;
  status = SignerStatus.pending;
  email = none;
  display_name = id;
  version = 1;
  completed_at = none;
  declined_at = none;
  created_at = 0;
  updated_at = 0;
}

abbrev pub tenant : Signer
tenant = signer_at "tenant" 1

abbrev pub landlord : Signer
landlord = signer_at "landlord" 2

abbrev pub tenant_session : SigningSession
tenant_session = record {
  id = "session";
  organization_id = "org";
  document_id = "doc";
  signer_id = "tenant";
  token_hash = "secret";
  csrf_token_hash = some "csrf";
  status = SigningSessionStatus.active;
  expires_at = 100;
  consumed_at = some 5;
  completed_at = none;
  revoked_at = none;
  presentation_attempt_count = 0;
  failed_presentation_count = 0;
  last_presented_at = none;
  request_id = none;
  version = 2;
  created_at = 0;
  updated_at = 0;
}

abbrev pub shop : Repositories
shop = record {
  documents = lease ∷ [];
  revisions = [];
  signers = tenant ∷ landlord ∷ [];
  fields = [];
  sessions = tenant_session ∷ [];
  consents = [];
  audit_events = [];
  outbox_events = [];
  jobs = [];
  idempotency_records = [];
  ids_drawn = 0;
  clock_reads = 0;
  tokens_drawn = 0;
}

-- Times count up from 10, and a text is its own hash.
abbrev pub runtime : Runtime
runtime = record {
  id_at = λ n. "id";
  clock_at = λ n. 10 + n;
  token_at = λ n. "token";
  hash_token = λ s. s;
  iso = λ n. "time";
  sha256_json = λ j. "digest";
}

abbrev pub no_account : EnvelopePolicy
no_account document signer = false
