-- ===== src/Program/Done.antt =====
-- What is known of the parts of a handler that returned.
use bug_free_fiesta.Program.{
  BackgroundJob, OutboxEvent, on_outbox, pure, SignatureField, on_fields, append_audit, Payload,
  AuditEventType, RequestActor, AuditEvent, append_event, on_audit_log, SigningSession, on_sessions,
  next_id, IdempotencyRecord, on_idempotency, written, continue, Signer, Document, on_signers,
  on_documents, Option, ◌≡◌, Repositories, Handler, done, lift, gets, require, now_utc, ◌>>=◌,
  Runtime,
}
use bug_free_fiesta.Domain.Errors.{ApplicationError, Result, ok, err}
use bug_free_fiesta.Prelude.{ap, ◌∙◌, arith, String, List, ◌+◌, ℕ, none, some, refl}

module _ {ℓ κ} {A : Type ℓ} {B : Type κ} (f : A → Handler B) {s : Repositories} {b : B}
    {t : Repositories} where
  pub lift-done :
      (r : Result A) → (lift r >>= f) s ≡ done b t → (a : A) × (r ≡ ok a) × (f a s ≡ done b t)
  unfolding lift ◌>>=◌
  lift-done (ok a) h = (a, refl, h)
  lift-done (err e) h = cc

  pub require-done :
      (o : Option A) (e : ApplicationError)
      → (require o e >>= f) s ≡ done b t
      → (a : A) × (o ≡ some a) × (f a s ≡ done b t)
  unfolding require ◌>>=◌
  require-done (some a) e h = (a, refl, h)
  require-done none e h = cc

  pub gets-done : (g : Repositories → A) → (gets g >>= f) s ≡ done b t → f (g s) s ≡ done b t
  unfolding gets ◌>>=◌
  gets-done g h = h

pub pure_only {ℓ} :
    {A : Type ℓ} (a : A) (s t : Repositories) (b : A) → pure a s ≡ done b t → (a ≡ b) × (s ≡ t)
unfolding pure
pure_only a s t b h = (ground arith, ground arith)

pub lift_only {ℓ} :
    {A : Type ℓ} (r : Result A) (s t : Repositories) (a : A)
    → lift r s ≡ done a t
    → (r ≡ ok a) × (s ≡ t)
unfolding lift
lift_only (ok x) s t a h = (ground arith, ground arith)
lift_only (err e) s t a h = cc

pub on_sessions_only {ℓ} :
    {A : Type ℓ} (f : List SigningSession → Result (A × List SigningSession)) (s t : Repositories)
    (a : A)
    → on_sessions f s ≡ done a t
    → (b : A) × (rows : List SigningSession) × (f s.sessions ≡ ok (b, rows))
      × (t ≡ record s { sessions = rows })
unfolding on_sessions
on_sessions_only {A = A} f s t a h = go (f s.sessions) refl h
  where
    go :
        (r : Result (A × List SigningSession))
        → f s.sessions ≡ r
        → written (λ rows u. record u { sessions = rows }) r s ≡ done a t
        → (b : A) × (rows : List SigningSession) × (f s.sessions ≡ ok (b, rows))
          × (t ≡ record s { sessions = rows })
    go (ok (b, rows)) e k = (b, rows, e, ground arith)
    go (err e) x k = cc

module _ {ℓ} {B : Type ℓ} (rt : Runtime) {b : B} {t : Repositories} where
  pub now_utc-done :
      (f : ℕ → Handler B) (s : Repositories)
      → (now_utc rt >>= f) s ≡ done b t
      → f (rt.clock_at s.clock_reads) (record s { clock_reads = s.clock_reads + 1 }) ≡ done b t
  unfolding now_utc ◌>>=◌
  now_utc-done f s h = h

  pub next_id-done :
      (f : String → Handler B) (s : Repositories)
      → (next_id rt >>= f) s ≡ done b t
      → f (rt.id_at s.ids_drawn) (record s { ids_drawn = s.ids_drawn + 1 }) ≡ done b t
  unfolding next_id ◌>>=◌
  next_id-done f s h = h

module _ {ℓ κ} {A : Type ℓ} {B : Type κ} (k : A → Handler B) (s : Repositories) {b : B}
    {t : Repositories} where
  pub on_documents-done :
      (f : List Document → Result (A × List Document))
      → (on_documents f >>= k) s ≡ done b t
      → (a : A) × (rows : List Document) × (f s.documents ≡ ok (a, rows))
        × (k a (record s { documents = rows }) ≡ done b t)
  unfolding on_documents ◌>>=◌
  on_documents-done f h = go (f s.documents) refl h
    where
      go :
          (r : Result (A × List Document))
          → f s.documents ≡ r
          → continue (written (λ rows u. record u { documents = rows }) r s) k ≡ done b t
          → (a : A) × (rows : List Document) × (f s.documents ≡ ok (a, rows))
            × (k a (record s { documents = rows }) ≡ done b t)
      go (ok (a, rows)) e h' = (a, rows, e, h')
      go (err x) e h' = cc

  pub on_signers-done :
      (f : List Signer → Result (A × List Signer))
      → (on_signers f >>= k) s ≡ done b t
      → (a : A) × (rows : List Signer) × (f s.signers ≡ ok (a, rows))
        × (k a (record s { signers = rows }) ≡ done b t)
  unfolding on_signers ◌>>=◌
  on_signers-done f h = go (f s.signers) refl h
    where
      go :
          (r : Result (A × List Signer))
          → f s.signers ≡ r
          → continue (written (λ rows u. record u { signers = rows }) r s) k ≡ done b t
          → (a : A) × (rows : List Signer) × (f s.signers ≡ ok (a, rows))
            × (k a (record s { signers = rows }) ≡ done b t)
      go (ok (a, rows)) e h' = (a, rows, e, h')
      go (err x) e h' = cc

  pub on_fields-done :
      (f : List SignatureField → Result (A × List SignatureField))
      → (on_fields f >>= k) s ≡ done b t
      → (a : A) × (rows : List SignatureField) × (f s.fields ≡ ok (a, rows))
        × (k a (record s { fields = rows }) ≡ done b t)
  unfolding on_fields ◌>>=◌
  on_fields-done f h = go (f s.fields) refl h
    where
      go :
          (r : Result (A × List SignatureField))
          → f s.fields ≡ r
          → continue (written (λ rows u. record u { fields = rows }) r s) k ≡ done b t
          → (a : A) × (rows : List SignatureField) × (f s.fields ≡ ok (a, rows))
            × (k a (record s { fields = rows }) ≡ done b t)
      go (ok (a, rows)) e h' = (a, rows, e, h')
      go (err x) e h' = cc

  pub on_idempotency-done :
      (f : List IdempotencyRecord → Result (A × List IdempotencyRecord))
      → (on_idempotency f >>= k) s ≡ done b t
      → (a : A) × (rows : List IdempotencyRecord) × (f s.idempotency_records ≡ ok (a, rows))
        × (k a (record s { idempotency_records = rows }) ≡ done b t)
  unfolding on_idempotency ◌>>=◌
  on_idempotency-done f h = go (f s.idempotency_records) refl h
    where
      go :
          (r : Result (A × List IdempotencyRecord))
          → f s.idempotency_records ≡ r
          → continue (written (λ rows u. record u { idempotency_records = rows }) r s) k ≡ done b t
          → (a : A) × (rows : List IdempotencyRecord) × (f s.idempotency_records ≡ ok (a, rows))
            × (k a (record s { idempotency_records = rows }) ≡ done b t)
      go (ok (a, rows)) e h' = (a, rows, e, h')
      go (err x) e h' = cc

on_audit_log_only {ℓ} :
    {A : Type ℓ} (f : List AuditEvent → Result (A × List AuditEvent)) (s t : Repositories) (a : A)
    → on_audit_log f s ≡ done a t
    → (rows : List AuditEvent) × (t ≡ record s { audit_events = rows })
unfolding on_audit_log
on_audit_log_only {A = A} f s t a h = go (f s.audit_events) h
  where
    go :
        (r : Result (A × List AuditEvent))
        → written (λ rows u. record u { audit_events = rows }) r s ≡ done a t
        → (rows : List AuditEvent) × (t ≡ record s { audit_events = rows })
    go (ok (b, rows)) k = (rows, ground arith)
    go (err x) k = cc

-- An event that is appended changes the audit log and the number of ids that were drawn.
pub append_event-done :
    (rt : Runtime) (actor : RequestActor) (organization_id document_id : String)
    (type : AuditEventType) (occurred_at : ℕ) (payload : Payload) (request_id : String)
    (s t : Repositories) (event : AuditEvent)
    → append_event rt actor organization_id document_id type occurred_at payload request_id s
      ≡ done event t
    → (rows : List AuditEvent) × (t ≡ record s { ids_drawn = s.ids_drawn + 1; audit_events = rows })
unfolding append_event
append_event-done rt actor organization_id document_id type occurred_at payload request_id s t event
      h =
    on_audit_log_only (append_audit rt.iso rt.sha256_json _)
      (record s { ids_drawn = s.ids_drawn + 1 }) t event (next_id-done rt _ s h)

pub on_documents_only {ℓ} :
    {A : Type ℓ} (f : List Document → Result (A × List Document)) (s t : Repositories) (a : A)
    → on_documents f s ≡ done a t
    → (rows : List Document) × (f s.documents ≡ ok (a, rows)) × (t ≡ record s { documents = rows })
unfolding on_documents
on_documents_only {A = A} f s t a h = go (f s.documents) refl h
  where
    go :
        (r : Result (A × List Document))
        → f s.documents ≡ r
        → written (λ rows u. record u { documents = rows }) r s ≡ done a t
        → (rows : List Document) × (f s.documents ≡ ok (a, rows))
          × (t ≡ record s { documents = rows })
    go (ok (b, rows)) e k =
        let same : b ≡ a = ground arith in (rows, e ∙ ap (λ x. ok (x, rows)) same, ground arith)
    go (err x) e k = cc

pub on_outbox_only {ℓ} :
    {A : Type ℓ}
    (f : List OutboxEvent × List BackgroundJob
      → Result (A × (List OutboxEvent × List BackgroundJob)))
    (s t : Repositories) (a : A)
    → on_outbox f s ≡ done a t
    → (rows : List OutboxEvent × List BackgroundJob) × (t
        ≡ record s { outbox_events = rows.0; jobs = rows.1 })
unfolding on_outbox
on_outbox_only {A = A} f s t a h = go (f (s.outbox_events, s.jobs)) h
  where
    go :
        (r : Result (A × (List OutboxEvent × List BackgroundJob)))
        → written (λ rows u. record u { outbox_events = rows.0; jobs = rows.1 }) r s ≡ done a t
        → (rows : List OutboxEvent × List BackgroundJob) × (t
            ≡ record s { outbox_events = rows.0; jobs = rows.1 })
    go (ok (b, rows)) k = (rows, ground arith)
    go (err x) k = cc
