-- ===== src/Program/Sound.antt =====
-- What every handler keeps of the rows it shares with the others.
use bug_free_fiesta.Program.{
  Payload, AuditEventType, BackgroundJob, SigningSession, Signer, OutboxEvent, SignatureField,
  RequestActor, ConsentRecord, Document, IdempotencyRecord, AuditEvent, Repositories, Runtime, left,
  written, on_documents, on_signers, on_fields, on_sessions, on_consents, on_audit_log,
  on_idempotency, on_outbox, next_id, now_utc, generate_raw_token, append_event, write_session,
}
use bug_free_fiesta.Program.Keeps.{Keeps, Keeps-bind}
use bug_free_fiesta.Domain.Errors.{Result, ok, err}
use bug_free_fiesta.Store.Ledger.{ChainKey, AuditAppendInput, append_audit}
use bug_free_fiesta.Store.Ledger.Chain.{IsChain, append_audit-IsChain}
use bug_free_fiesta.Store.Sessions.{SessionKey, create_session, update_session}
use bug_free_fiesta.Store.Sessions.Moves.{SessionUpdate, act}
use bug_free_fiesta.Store.Sessions.OneOpen.{OneOpen, create_session-OneOpen, act-OneOpen}
use bug_free_fiesta.Prelude.{append_assoc, ap, ℕ, ◌∙◌, [], String, ◌∷◌, List, ◌++◌, ◌≡◌, refl}

-- A signer has at most one open session, the events of every document are a hash chain, and `log`,
-- an earlier audit log, is what the present one begins with.
pub record Sound (rt : Runtime) (log : List AuditEvent) (s : Repositories) : Type 0 where
  pub one_open : OneOpen s.sessions
  pub chained : (key : ChainKey) → IsChain rt.iso rt.sha256_json key s.audit_events
  pub extends : (new : List AuditEvent) × (s.audit_events ≡ log ++ new)

module _ (rt : Runtime) (log : List AuditEvent) where
  Sound-written {ℓ κ} :
      {A : Type ℓ} {Rows : Type κ} (put : Rows → Repositories → Repositories)
      (r : Result (A × Rows)) (s : Repositories)
      → ((a : A) (rows : Rows) → r ≡ ok (a, rows) → Sound rt log (put rows s))
      → Sound rt log s
      → Sound rt log (left (written put r s))
  Sound-written put (ok (a, rows)) s step h = step a rows refl
  Sound-written put (err e) s step h = h

  -- The operations of the other repositories touch neither the sessions nor the audit log.
  module _ {ℓ} {A : Type ℓ} where
    pub Sound-on_documents :
        (f : List Document → Result (A × List Document)) → Keeps (Sound rt log) (on_documents f)
    unfolding on_documents
    Sound-on_documents f = record {
      at = λ s h.
          Sound-written _ (f s.documents) s
            (λ a rows e. record { one_open = h.one_open; chained = h.chained; extends = h.extends })
            h;
    }

    pub Sound-on_signers :
        (f : List Signer → Result (A × List Signer)) → Keeps (Sound rt log) (on_signers f)
    unfolding on_signers
    Sound-on_signers f = record {
      at = λ s h.
          Sound-written _ (f s.signers) s
            (λ a rows e. record { one_open = h.one_open; chained = h.chained; extends = h.extends })
            h;
    }

    pub Sound-on_fields :
        (f : List SignatureField → Result (A × List SignatureField))
        → Keeps (Sound rt log) (on_fields f)
    unfolding on_fields
    Sound-on_fields f = record {
      at = λ s h.
          Sound-written _ (f s.fields) s
            (λ a rows e. record { one_open = h.one_open; chained = h.chained; extends = h.extends })
            h;
    }

    pub Sound-on_consents :
        (f : List ConsentRecord → Result (A × List ConsentRecord))
        → Keeps (Sound rt log) (on_consents f)
    unfolding on_consents
    Sound-on_consents f = record {
      at = λ s h.
          Sound-written _ (f s.consents) s
            (λ a rows e. record { one_open = h.one_open; chained = h.chained; extends = h.extends })
            h;
    }

    pub Sound-on_idempotency :
        (f : List IdempotencyRecord → Result (A × List IdempotencyRecord))
        → Keeps (Sound rt log) (on_idempotency f)
    unfolding on_idempotency
    Sound-on_idempotency f = record {
      at = λ s h.
          Sound-written _ (f s.idempotency_records) s
            (λ a rows e. record { one_open = h.one_open; chained = h.chained; extends = h.extends })
            h;
    }

    pub Sound-on_outbox :
        (f : List OutboxEvent × List BackgroundJob
          → Result (A × (List OutboxEvent × List BackgroundJob)))
        → Keeps (Sound rt log) (on_outbox f)
    unfolding on_outbox
    Sound-on_outbox f = record {
      at = λ s h.
          Sound-written _ (f (s.outbox_events, s.jobs)) s
            (λ a rows e. record { one_open = h.one_open; chained = h.chained; extends = h.extends })
            h;
    }

  pub Sound-next_id : Keeps (Sound rt log) (next_id rt)
  unfolding next_id
  Sound-next_id = record {
    at = λ s h. record { one_open = h.one_open; chained = h.chained; extends = h.extends };
  }

  pub Sound-now_utc : Keeps (Sound rt log) (now_utc rt)
  unfolding now_utc
  Sound-now_utc = record {
    at = λ s h. record { one_open = h.one_open; chained = h.chained; extends = h.extends };
  }

  pub Sound-generate_raw_token : Keeps (Sound rt log) (generate_raw_token rt)
  unfolding generate_raw_token
  Sound-generate_raw_token = record {
    at = λ s h. record { one_open = h.one_open; chained = h.chained; extends = h.extends };
  }

  pub Sound-write_session :
      (key : SessionKey) (u : SessionUpdate) → Keeps (Sound rt log) (write_session key u)
  unfolding write_session on_sessions
  Sound-write_session key u = record {
    at = λ s h.
        Sound-written _ (update_session key (act u) s.sessions) s
          (λ next rows e. record {
            one_open = act-OneOpen key u s.sessions rows next h.one_open e;
            chained = h.chained;
            extends = h.extends;
          })
          h;
  }

  pub Sound-create_session :
      (organization_id : String) (session : SigningSession)
      → session.organization_id ≡ organization_id
      → Keeps (Sound rt log) (on_sessions (create_session organization_id session))
  unfolding on_sessions
  Sound-create_session organization_id session same = record {
    at = λ s h.
        Sound-written _ (create_session organization_id session s.sessions) s
          (λ made rows e. record {
            one_open =
                create_session-OneOpen organization_id session s.sessions rows made same h.one_open
                  e;
            chained = h.chained;
            extends = h.extends;
          })
          h;
  }

  Sound-append_audit :
      (event : AuditAppendInput)
      → Keeps (Sound rt log) (on_audit_log (append_audit rt.iso rt.sha256_json event))
  unfolding on_audit_log
  Sound-append_audit event = record {
    at = λ s h.
        Sound-written _ (append_audit rt.iso rt.sha256_json event s.audit_events) s
          (λ stored rows e.
            let kept = λ (key : ChainKey).
              append_audit-IsChain rt.iso rt.sha256_json key event s.audit_events rows stored e
                (h.chained key) in
            let (new, begun) = h.extends in
            record {
              one_open = h.one_open;
              chained = λ key. (kept key).0;
              extends = (
                new ++ stored ∷ [],
                (kept (record { organization_id = ""; document_id = "" })).1
                    ∙ (ap (λ l. l ++ stored ∷ []) begun ∙ append_assoc log new (stored ∷ [])),
              );
            })
          h;
  }

  pub Sound-append_event :
      (actor : RequestActor) (organization_id document_id : String) (type : AuditEventType)
      (occurred_at : ℕ) (payload : Payload) (request_id : String)
      → Keeps
          (Sound rt log)
          (append_event rt actor organization_id document_id type occurred_at payload request_id)
  unfolding append_event
  Sound-append_event actor organization_id document_id type occurred_at payload request_id =
      Keeps-bind (next_id rt) _ Sound-next_id (λ id. Sound-append_audit _)
