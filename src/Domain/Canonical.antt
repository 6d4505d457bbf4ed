-- ===== src/Domain/Canonical.antt =====
-- packages/domain/src/audit/canonical.ts: the canonical form of an event, and its hash. `sha256_json`
-- stands for the SHA-256 digest of a JSON text, and `iso` for `toISOString`.
use bug_free_fiesta.Prelude.{
  ◌%◌, ◌/◌, ◌-◌, ◌&&◌, ◌+◌, ◌==◌, ◌||◌, leb, if◌then◌else◌, ltb, ℕ, String, Bool, true, false, List,
  [], ◌∷◌,
}
use bug_free_fiesta.Domain.Json.{
  Json, null, undefined, boolean, number, non_finite_number, string, date, invalid_date, binary,
  array, object, unsupported, Elems, nil, elem, Props, end, prop,
}
use bug_free_fiesta.Domain.Statuses.{AuditEventType, AuditActorType}
use bug_free_fiesta.Domain.Payload.{reject}
use bug_free_fiesta.Domain.Text.{codes}
use bug_free_fiesta.Domain.Errors.{err, guard, ◌>>=◌, ok, ◌>>◌, Result}

abbrev pub audit_event_type_text : AuditEventType → String
audit_event_type_text AuditEventType.document_created = "document_created"
audit_event_type_text AuditEventType.revision_added = "revision_added"
audit_event_type_text AuditEventType.fields_updated = "fields_updated"
audit_event_type_text AuditEventType.signers_updated = "signers_updated"
audit_event_type_text AuditEventType.document_sent = "document_sent"
audit_event_type_text AuditEventType.session_issued = "session_issued"
audit_event_type_text AuditEventType.session_revoked = "session_revoked"
audit_event_type_text AuditEventType.session_exchanged = "session_exchanged"
audit_event_type_text AuditEventType.document_viewed = "document_viewed"
audit_event_type_text AuditEventType.consent_recorded = "consent_recorded"
audit_event_type_text AuditEventType.signer_signed = "signer_signed"
audit_event_type_text AuditEventType.signer_declined = "signer_declined"
audit_event_type_text AuditEventType.document_voided = "document_voided"
audit_event_type_text AuditEventType.document_expired = "document_expired"
audit_event_type_text AuditEventType.finalization_started = "finalization_started"
audit_event_type_text AuditEventType.document_finalized = "document_finalized"
audit_event_type_text AuditEventType.finalization_failed = "finalization_failed"
audit_event_type_text AuditEventType.artifact_downloaded = "artifact_downloaded"
audit_event_type_text AuditEventType.inspection_accepted = "inspection_accepted"
audit_event_type_text AuditEventType.inspection_rejected = "inspection_rejected"
audit_event_type_text AuditEventType.upload_abandoned = "upload_abandoned"

abbrev pub actor_type_text : AuditActorType → String
actor_type_text AuditActorType.account_user = "account_user"
actor_type_text AuditActorType.signer = "signer"
actor_type_text AuditActorType.worker = "worker"
actor_type_text AuditActorType.system = "system"

-- The code units of a text, by which `sort()` orders keys.
units : List ℕ → List ℕ
units [] = []
units (c ∷ text) =
    if leb 0x10000 c
    then (0xD800 + (c - 0x10000) / 0x400) ∷ (0xDC00 + (c - 0x10000) % 0x400) ∷ units text
    else c ∷ units text

precedes : List ℕ → List ℕ → Bool
precedes [] [] = false
precedes [] (d ∷ other) = true
precedes (c ∷ text) [] = false
precedes (c ∷ text) (d ∷ other) = ltb c d || (c == d && precedes text other)

unfoldable pub key_before : String → String → Bool
unfolding units precedes
key_before a b = precedes (units (codes a)) (units (codes b))

-- `Object.keys(record).sort()`, with the value of each key beside it
insert_entry : String → Result Json → List (String × Result Json) → List (String × Result Json)
unfolding key_before
insert_entry key value [] = (key, value) ∷ []
insert_entry key value ((other, w) ∷ rest) =
    if key_before other key
    then (other, w) ∷ insert_entry key value rest
    else (key, value) ∷ (other, w) ∷ rest

-- The first value in the order of the keys that is refused stops the walk.
collect : List (String × Result Json) → Result Props
collect [] = ok end
collect ((key, value) ∷ rest) = do v ← value; r ← collect rest; ok (prop key v r)

unfoldable pub audit_chain_schema_version : ℕ
audit_chain_schema_version = 1

module _ (iso : ℕ → String) where
  unfoldable mutual
    unfolding insert_entry collect

    pub canonicalize : Json → Result Json
    canonicalize null = ok null
    canonicalize (boolean b) = ok (boolean b)
    canonicalize (number n) = ok (number n)
    canonicalize non_finite_number = err (reject "non_finite_json_number")
    canonicalize (string s) = ok (string s)
    canonicalize (date t) = ok (string (iso t))
    canonicalize invalid_date = err (reject "invalid_occurred_at")
    canonicalize binary = err (reject "binary_audit_payload")
    canonicalize (array values) = do canonical ← canonicalize_elems values; ok (array canonical)
    canonicalize (object payload) = do
      canonical ← collect (sorted_entries payload)
      ok (object canonical)
    canonicalize undefined = err (reject "unsupported_json_type")
    canonicalize unsupported = err (reject "unsupported_json_type")

    pub canonicalize_elems : Elems → Result Elems
    canonicalize_elems nil = ok nil
    canonicalize_elems (elem value rest) = do
      v ← canonicalize value
      r ← canonicalize_elems rest
      ok (elem v r)

    -- A nested value that is undefined is left out.
    pub sorted_entries : Props → List (String × Result Json)
    sorted_entries end = []
    sorted_entries (prop key undefined rest) = sorted_entries rest
    sorted_entries (prop key value rest) =
        insert_entry key (canonicalize value) (sorted_entries rest)

pub record AuditEventHashInput : Type 0 where
  pub schema_version : ℕ
  pub previous_event_hash : String
  pub sequence : ℕ
  pub type : String
  pub actor_type : String
  pub actor_id : String
  pub occurred_at : ℕ
  pub payload : Props

module _ (iso : ℕ → String) (sha256_json : Json → String) where
  unfoldable pub to_canonical_audit_event : AuditEventHashInput → Result Props
  unfolding canonicalize audit_chain_schema_version
  to_canonical_audit_event input = do
    guard (input.schema_version == audit_chain_schema_version)
        (reject "unsupported_audit_schema_version")
    payload ← canonicalize iso (object input.payload)
    ok (
        prop "actorId" (string input.actor_id) (
          prop "actorType" (string input.actor_type) (
            prop "occurredAt" (string (iso input.occurred_at)) (
              prop "payload" payload (
                prop "previousEventHash" (string input.previous_event_hash) (
                  prop "schemaVersion" (number audit_chain_schema_version) (
                    prop "sequence" (number input.sequence)
                      (prop "type" (string input.type) end))))))))

  unfoldable pub compute_audit_event_hash : AuditEventHashInput → Result String
  unfolding to_canonical_audit_event
  compute_audit_event_hash input = do
    canonical ← to_canonical_audit_event input
    value ← canonicalize iso (object canonical)
    ok (sha256_json value)
