-- ===== src/Program.antt =====
-- Handlers as functions of the repositories they share: what was written before an error is thrown
-- stays written, as with `createMemoryUnitOfWork` of
-- packages/application/src/documents/memory-adapters.ts, whose `run` only calls its work.
pub mod Keeps
pub mod Sound
pub mod Done
pub mod Untouched
use bug_free_fiesta.Domain.Errors.{Result, ok, err, ApplicationError}
use bug_free_fiesta.Domain.Entities.{
  Payload, Document, DocumentRevision, Signer, SignatureField, SigningSession, ConsentRecord,
  AuditEvent, OutboxEvent, BackgroundJob, IdempotencyRecord,
}
use bug_free_fiesta.Prelude.{refl, none, ◌+◌, some, Option, ℕ, String, ◌≡◌, List}
use bug_free_fiesta.Domain.Actor.{actor_id, actor_type, RequestActor}
use bug_free_fiesta.Domain.Json.{Json}
use bug_free_fiesta.Domain.Statuses.{AuditEventType}
use bug_free_fiesta.Store.Ledger.{append_audit}
use bug_free_fiesta.Store.Sessions.{SessionKey, update_session}
use bug_free_fiesta.Store.Sessions.Moves.{SessionUpdate, act}

-- The rows of every repository, and how many ids, times and tokens have been asked for.
pub record Repositories : Type 0 where
  pub documents : List Document
  pub revisions : List DocumentRevision
  pub signers : List Signer
  pub fields : List SignatureField
  pub sessions : List SigningSession
  pub consents : List ConsentRecord
  pub audit_events : List AuditEvent
  pub outbox_events : List OutboxEvent
  pub jobs : List BackgroundJob
  pub idempotency_records : List IdempotencyRecord
  pub ids_drawn : ℕ
  pub clock_reads : ℕ
  pub tokens_drawn : ℕ

-- What the handlers are given: the id and token generators and the clock, each by the number of the
-- call, the token hasher, and the digest of the canonical form.
pub record Runtime : Type 0 where
  pub id_at : ℕ → String
  pub clock_at : ℕ → ℕ
  pub token_at : ℕ → String
  pub hash_token : String → String
  pub iso : ℕ → String
  pub sha256_json : Json → String

pub data Outcome {ℓ} (A : Type ℓ) : Type ℓ where
  done : A → Repositories → Outcome A
  failed : ApplicationError → Repositories → Outcome A

abbrev pub Handler {ℓ} : Type ℓ → Type ℓ
Handler A = Repositories → Outcome A

-- The repositories that an outcome leaves.
abbrev pub left {ℓ} : {A : Type ℓ} → Outcome A → Repositories
left (done a s) = s
left (failed e s) = s

abbrev pub continue {ℓ κ} : {A : Type ℓ} {B : Type κ} → Outcome A → (A → Handler B) → Outcome B
continue (done a s) f = f a s
continue (failed e s) f = failed e s

infixl 5 ◌>>=◌ ◌>>◌
unfoldable pub ◌>>=◌ {ℓ κ} : {A : Type ℓ} {B : Type κ} → Handler A → (A → Handler B) → Handler B
◌>>=◌ m f s = continue (m s) f

abbrev pub ◌>>◌ {ℓ κ} : {A : Type ℓ} {B : Type κ} → Handler A → Handler B → Handler B
m >> k = m >>= λ _. k

unfoldable pub pure {ℓ} : {A : Type ℓ} → A → Handler A
pure a s = done a s

unfoldable pub throw {ℓ} : {A : Type ℓ} → ApplicationError → Handler A
throw e s = failed e s

abbrev pub outcome_of {ℓ} : {A : Type ℓ} → Result A → Repositories → Outcome A
outcome_of (ok a) s = done a s
outcome_of (err e) s = failed e s

unfoldable pub lift {ℓ} : {A : Type ℓ} → Result A → Handler A
lift r s = outcome_of r s

unfoldable pub gets {ℓ} : {A : Type ℓ} → (Repositories → A) → Handler A
gets f s = done (f s) s

-- `if (row === null) throw e`
unfoldable pub require {ℓ} : {A : Type ℓ} → Option A → ApplicationError → Handler A
require none e s = failed e s
require (some a) e s = done a s

-- `run` of `createMemoryUnitOfWork`
abbrev pub run {ℓ} : {A : Type ℓ} → Handler A → Handler A
run work = work

-- An operation of one repository, as a step of all of them.
module _ {ℓ κ} {A : Type ℓ} {Rows : Type κ} (put : Rows → Repositories → Repositories) where
  abbrev pub written : Result (A × Rows) → Repositories → Outcome A
  written (ok (a, rows)) s = done a (put rows s)
  written (err e) s = failed e s

module _ {ℓ} {A : Type ℓ} where
  unfoldable pub on_documents : (List Document → Result (A × List Document)) → Handler A
  on_documents f s = written (λ rows t. record t { documents = rows }) (f s.documents) s

  unfoldable pub on_signers : (List Signer → Result (A × List Signer)) → Handler A
  on_signers f s = written (λ rows t. record t { signers = rows }) (f s.signers) s

  unfoldable pub on_fields : (List SignatureField → Result (A × List SignatureField)) → Handler A
  on_fields f s = written (λ rows t. record t { fields = rows }) (f s.fields) s

  unfoldable pub on_sessions : (List SigningSession → Result (A × List SigningSession)) → Handler A
  on_sessions f s = written (λ rows t. record t { sessions = rows }) (f s.sessions) s

  unfoldable pub on_consents : (List ConsentRecord → Result (A × List ConsentRecord)) → Handler A
  on_consents f s = written (λ rows t. record t { consents = rows }) (f s.consents) s

  unfoldable pub on_audit_log : (List AuditEvent → Result (A × List AuditEvent)) → Handler A
  on_audit_log f s = written (λ rows t. record t { audit_events = rows }) (f s.audit_events) s

  unfoldable pub on_idempotency :
      (List IdempotencyRecord → Result (A × List IdempotencyRecord)) → Handler A
  on_idempotency f s =
      written (λ rows t. record t { idempotency_records = rows }) (f s.idempotency_records) s

  unfoldable pub on_outbox :
      (List OutboxEvent × List BackgroundJob → Result (A × (List OutboxEvent × List BackgroundJob)))
      → Handler A
  on_outbox f s =
      written (λ rows t. record t { outbox_events = rows.0; jobs = rows.1 })
        (f (s.outbox_events, s.jobs)) s

-- An update of one session, as `act` names them.
unfoldable pub write_session : SessionKey → SessionUpdate → Handler SigningSession
write_session key u = on_sessions (update_session key (act u))

module _ (rt : Runtime) where
  unfoldable pub next_id : Handler String
  next_id s = done (rt.id_at s.ids_drawn) (record s { ids_drawn = s.ids_drawn + 1 })

  unfoldable pub now_utc : Handler ℕ
  now_utc s = done (rt.clock_at s.clock_reads) (record s { clock_reads = s.clock_reads + 1 })

  unfoldable pub generate_raw_token : Handler String
  generate_raw_token s =
      done (rt.token_at s.tokens_drawn) (record s { tokens_drawn = s.tokens_drawn + 1 })

  -- `scope.audit.append({ id: deps.ids.next(), … })`
  unfoldable pub append_event :
      RequestActor → String → String → AuditEventType → ℕ → Payload → String → Handler AuditEvent
  append_event actor organization_id document_id type occurred_at payload request_id = do
    id ← next_id
    on_audit_log (
        append_audit rt.iso rt.sha256_json (record {
          id = id;
          organization_id = organization_id;
          document_id = document_id;
          type = type;
          actor_type = actor_type actor;
          actor_id = actor_id actor;
          occurred_at = occurred_at;
          payload = payload;
          request_id = some request_id;
        }))

pub >>=-eq-done {ℓ κ} :
    {A : Type ℓ} {B : Type κ} (m : Handler A) (f : A → Handler B) (s : Repositories) {b : B}
    {t : Repositories}
    → (m >>= f) s ≡ done b t
    → (a : A) × (u : Repositories) × (m s ≡ done a u) × (f a u ≡ done b t)
unfolding ◌>>=◌
>>=-eq-done {A} {B} m f s {b} {t} h = go (m s) refl h
  where
    go :
        (o : Outcome A)
        → m s ≡ o
        → continue o f ≡ done b t
        → (a : A) × (u : Repositories) × (m s ≡ done a u) × (f a u ≡ done b t)
    go (done a u) e k = (a, u, e, k)
    go (failed x u) e k = cc
