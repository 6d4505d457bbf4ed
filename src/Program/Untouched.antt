-- ===== src/Program/Untouched.antt =====
-- The operations that leave the idempotency records alone.
use bug_free_fiesta.Program.{
  Payload, ℕ, AuditEventType, BackgroundJob, SessionUpdate, err, String, RequestActor, OutboxEvent,
  SessionKey, AuditEvent, ok, Signer, Document, SigningSession, on_signers, ◌≡◌, on_sessions,
  on_audit_log, on_documents, next_id, on_outbox, write_session, Result, append_event,
  IdempotencyRecord, List, Repositories, Runtime, written, left,
}
use bug_free_fiesta.Program.Keeps.{Keeps, Keeps-bind}
use bug_free_fiesta.Prelude.{}

-- The idempotency records are those given.
abbrev pub SameRequests : List IdempotencyRecord → Repositories → Type 0
SameRequests records s = s.idempotency_records ≡ records

module _ (records : List IdempotencyRecord) where
  SameRequests-written {ℓ κ} :
      {A : Type ℓ} {Rows : Type κ} (put : Rows → Repositories → Repositories)
      (r : Result (A × Rows)) (s : Repositories)
      → ((rows : Rows) → SameRequests records (put rows s))
      → SameRequests records s
      → SameRequests records (left (written put r s))
  SameRequests-written put (ok (a, rows)) s step h = step rows
  SameRequests-written put (err e) s step h = h

  module _ {ℓ} {A : Type ℓ} where
    pub SameRequests-on_documents :
        (f : List Document → Result (A × List Document))
        → Keeps (SameRequests records) (on_documents f)
    unfolding on_documents
    SameRequests-on_documents f = record {
      at = λ s h. SameRequests-written _ (f s.documents) s (λ rows. h) h;
    }

    pub SameRequests-on_sessions :
        (f : List SigningSession → Result (A × List SigningSession))
        → Keeps (SameRequests records) (on_sessions f)
    unfolding on_sessions
    SameRequests-on_sessions f = record {
      at = λ s h. SameRequests-written _ (f s.sessions) s (λ rows. h) h;
    }

    pub SameRequests-on_signers :
        (f : List Signer → Result (A × List Signer)) → Keeps (SameRequests records) (on_signers f)
    unfolding on_signers
    SameRequests-on_signers f = record {
      at = λ s h. SameRequests-written _ (f s.signers) s (λ rows. h) h;
    }

    SameRequests-on_audit_log :
        (f : List AuditEvent → Result (A × List AuditEvent))
        → Keeps (SameRequests records) (on_audit_log f)
    unfolding on_audit_log
    SameRequests-on_audit_log f = record {
      at = λ s h. SameRequests-written _ (f s.audit_events) s (λ rows. h) h;
    }

    pub SameRequests-on_outbox :
        (f : List OutboxEvent × List BackgroundJob
          → Result (A × (List OutboxEvent × List BackgroundJob)))
        → Keeps (SameRequests records) (on_outbox f)
    unfolding on_outbox
    SameRequests-on_outbox f = record {
      at = λ s h. SameRequests-written _ (f (s.outbox_events, s.jobs)) s (λ rows. h) h;
    }

  pub SameRequests-write_session :
      (key : SessionKey) (u : SessionUpdate) → Keeps (SameRequests records) (write_session key u)
  unfolding write_session
  SameRequests-write_session key u = SameRequests-on_sessions _

  pub SameRequests-next_id : (rt : Runtime) → Keeps (SameRequests records) (next_id rt)
  unfolding next_id
  SameRequests-next_id rt = record { at = λ s h. h }

  pub SameRequests-append_event :
      (rt : Runtime) (actor : RequestActor) (organization_id document_id : String)
      (type : AuditEventType) (occurred_at : ℕ) (payload : Payload) (request_id : String)
      → Keeps
          (SameRequests records)
          (append_event rt actor organization_id document_id type occurred_at payload request_id)
  unfolding append_event
  SameRequests-append_event rt actor organization_id document_id type occurred_at payload
        request_id =
      Keeps-bind (next_id rt) _ (SameRequests-next_id rt) (λ id. SameRequests-on_audit_log _)
