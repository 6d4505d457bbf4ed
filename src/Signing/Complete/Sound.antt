-- ===== src/Signing/Complete/Sound.antt =====
-- Completing a signature keeps the sessions and the audit log sound, on every path.
use bug_free_fiesta.Program.{Runtime}
use bug_free_fiesta.Program.Keeps.{Keeps, Keeps-bind, keeps_rules}
use bug_free_fiesta.Program.Sound.{
  Sound-on_outbox, Sound-next_id, Sound-append_event, Sound-on_idempotency, Sound-write_session,
  Sound-on_fields, Sound-on_signers, Sound-now_utc, Sound-on_documents, Sound,
}
use bug_free_fiesta.Prelude.{[], ◌∷◌, Option, Bool, ℕ, String, List}
use bug_free_fiesta.Domain.Entities.{ConsentRecord, SignatureField, Signer, AuditEvent}
use bug_free_fiesta.Signing.Complete.{
  Begun, ValidatedPng, Ink, EnvelopePolicy, complete_loaded, LoadedSignerSession,
  CompleteSigningInput, InkSupport, complete_begun, store_completion, complete_fields,
  move_document, complete_signing, complete_checked,
}
use bug_free_fiesta.Signing.Sound.{load_signer_session-Keeps}
use bug_free_fiesta.Envelope.Sound.{replay_or_begin_idempotency-Keeps}

module _ (rt : Runtime) (log : List AuditEvent) where
  complete_fields-Keeps :
      (organization_id : String) (now : ℕ) (signature initials : Option Ink)
      (fields : List SignatureField)
      → Keeps (Sound rt log) (complete_fields rt organization_id now signature initials fields)
  unfolding complete_fields
  complete_fields-Keeps organization_id now signature initials [] = search keeps_rules
  complete_fields-Keeps organization_id now signature initials (field ∷ fields) =
      Keeps-bind _ _ (Sound-on_fields rt log _)
        (λ _. complete_fields-Keeps organization_id now signature initials fields)

  move_document-Keeps :
      (loaded : LoadedSignerSession) (completed : Bool)
      → Keeps (Sound rt log) (move_document rt loaded completed)
  unfolding move_document
  move_document-Keeps loaded completed = search (keeps_rules, Sound-on_documents) depth 30

  store_completion-Keeps :
      (input : CompleteSigningInput) (loaded : LoadedSignerSession) (roster : List Signer)
      (selected : List SignatureField) (consent : ConsentRecord) (signature initials : Option Ink)
      (source : String) (now : ℕ)
      → Keeps
          (Sound rt log)
          (store_completion rt input loaded roster selected consent signature initials source now)
  unfolding store_completion
  store_completion-Keeps input loaded roster selected consent signature initials source now =
      search
        (
          keeps_rules, complete_fields-Keeps, Sound-on_signers, Sound-write_session,
          move_document-Keeps, Sound-append_event, Sound-next_id, Sound-on_outbox,
        )
        depth 40

  complete_begun-Keeps :
      (support : InkSupport) (input : CompleteSigningInput) (loaded : LoadedSignerSession)
      (roster : List Signer) (selected : List SignatureField) (consent : ConsentRecord)
      (signature initials : Option ValidatedPng) (begun : Begun)
      → Keeps
          (Sound rt log)
          (complete_begun rt support input loaded roster selected consent signature initials begun)
  unfolding complete_begun
  complete_begun-Keeps support input loaded roster selected consent signature initials
        (Begun.replay existing) =
      search keeps_rules
  complete_begun-Keeps support input loaded roster selected consent signature initials
        (Begun.fresh begun) =
      search (keeps_rules, Sound-now_utc, store_completion-Keeps, Sound-on_idempotency) depth 40

  complete_checked-Keeps :
      (support : InkSupport) (input : CompleteSigningInput) (loaded : LoadedSignerSession)
      (roster : List Signer) (fields : List SignatureField)
      → Keeps (Sound rt log) (complete_checked rt support input loaded roster fields)
  unfolding complete_checked
  complete_checked-Keeps support input loaded roster fields =
      search (keeps_rules, Sound-now_utc, replay_or_begin_idempotency-Keeps, complete_begun-Keeps)
        depth 60

  pub complete_signing-Keeps :
      (auth : EnvelopePolicy) (support : InkSupport) (input : CompleteSigningInput)
      → Keeps (Sound rt log) (complete_signing rt auth support input)
  unfolding complete_signing complete_loaded
  complete_signing-Keeps auth support input =
      search (keeps_rules, load_signer_session-Keeps, complete_checked-Keeps) depth 60
