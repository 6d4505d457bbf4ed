-- ===== src/Envelope/Sound.antt =====
-- The sender's commands keep the sessions and the audit log sound, on every path.
use bug_free_fiesta.Program.{Runtime}
use bug_free_fiesta.Program.Keeps.{Keeps, Keeps-bind, Keeps-if, Keeps-pure, keeps_rules}
use bug_free_fiesta.Program.Sound.{
  Sound-on_outbox, Sound-create_session, Sound-write_session, Sound-on_signers, Sound-append_event,
  Sound-generate_raw_token, Sound-on_fields, Sound-on_documents, Sound-next_id,
  Sound-on_idempotency, Sound-now_utc, Sound,
}
use bug_free_fiesta.Prelude.{none, some, [], ◌∷◌, ℕ, Option, String, List}
use bug_free_fiesta.Domain.Entities.{
  DocumentRevision, SignatureField, SigningSession, Signer, IdempotencyRecord, Document, AuditEvent,
}
use bug_free_fiesta.Envelope.Prepare.{
  SignerRow, FieldRow, ReplaceFieldsInput, ReplaceSignersInput, to_field, replace_document_fields,
  store_signers, store_fields, to_signer, keep_fields, replace_document_signers, id_or_next,
  maybe_mark_prepared, to_fields, to_signers,
}
use bug_free_fiesta.Envelope.Send.{
  SendDocumentInput, IssuedLink, SendFormat, send_begun, issue_link, store_sent, answer_sent,
  issue_links, send_document,
}
use bug_free_fiesta.Envelope.Requests.{Begun, BeginInput, begin_from, replay_or_begin_idempotency}
use bug_free_fiesta.Envelope.Void.{
  VoidDocumentInput, store_void, void_begun, answer_voided, void_document, revoke_listed,
}
use bug_free_fiesta.Envelope.Public.{BodyFormat}
use bug_free_fiesta.Domain.Statuses.{SigningMode}
use bug_free_fiesta.Domain.Lifecycle.{is_open_status}

module _ (rt : Runtime) (log : List AuditEvent) where
  begin_from-Keeps :
      (input : BeginInput) (found : Option IdempotencyRecord)
      → Keeps (Sound rt log) (begin_from rt input found)
  unfolding begin_from
  begin_from-Keeps input none = search (keeps_rules, Sound-next_id, Sound-on_idempotency) depth 30
  begin_from-Keeps input (some existing) = search keeps_rules depth 30

  pub replay_or_begin_idempotency-Keeps :
      (input : BeginInput) → Keeps (Sound rt log) (replay_or_begin_idempotency rt input)
  unfolding replay_or_begin_idempotency
  replay_or_begin_idempotency-Keeps input = search (keeps_rules, begin_from-Keeps) depth 30

  revoke_listed-Keeps :
      (organization_id : String) (now : ℕ) (sessions : List SigningSession)
      → Keeps (Sound rt log) (revoke_listed organization_id now sessions)
  unfolding revoke_listed
  revoke_listed-Keeps organization_id now [] = search keeps_rules
  revoke_listed-Keeps organization_id now (session ∷ rest) =
      let others = revoke_listed-Keeps organization_id now rest in
      Keeps-if (is_open_status session.status) _ _
        (Keeps-bind _ _ (Sound-write_session rt log _ _)
          (λ _. Keeps-bind _ _ others (λ ids. Keeps-pure _)))
        others

  store_void-Keeps :
      (input : VoidDocumentInput) (organization_id : String) (document : Document) (now : ℕ)
      → Keeps (Sound rt log) (store_void rt input organization_id document now)
  unfolding store_void
  store_void-Keeps input organization_id document now =
      search (keeps_rules, Sound-on_documents, revoke_listed-Keeps, Sound-append_event) depth 30

  answer_voided-Keeps :
      (format : BodyFormat) (organization_id : String) (voided : Document) (record_id : String)
      → Keeps (Sound rt log) (answer_voided rt format organization_id voided record_id)
  unfolding answer_voided
  answer_voided-Keeps format organization_id voided record_id =
      search (keeps_rules, Sound-on_idempotency) depth 30

  void_begun-Keeps :
      (format : BodyFormat) (input : VoidDocumentInput) (organization_id : String) (begun : Begun)
      → Keeps (Sound rt log) (void_begun rt format input organization_id begun)
  unfolding void_begun
  void_begun-Keeps format input organization_id (Begun.replay existing) = search keeps_rules
  void_begun-Keeps format input organization_id (Begun.fresh begun) =
      search (keeps_rules, Sound-now_utc, store_void-Keeps, answer_voided-Keeps) depth 40

  pub void_document-Keeps :
      (format : BodyFormat) (ttl : ℕ) (input : VoidDocumentInput)
      → Keeps (Sound rt log) (void_document rt format ttl input)
  unfolding void_document
  void_document-Keeps format ttl input =
      search (keeps_rules, Sound-now_utc, replay_or_begin_idempotency-Keeps, void_begun-Keeps) depth
        40

  maybe_mark_prepared-Keeps :
      (document : Document) (signers : List Signer) (fields : List SignatureField)
      → Keeps (Sound rt log) (maybe_mark_prepared document signers fields)
  unfolding maybe_mark_prepared
  maybe_mark_prepared-Keeps document signers fields =
      search (keeps_rules, Sound-on_documents) depth 20

  id_or_next-Keeps : (id : Option String) → Keeps (Sound rt log) (id_or_next rt id)
  unfolding id_or_next
  id_or_next-Keeps none = search Sound-next_id
  id_or_next-Keeps (some id) = search keeps_rules

  to_signer-Keeps :
      (row : SignerRow) (organization_id document_id : String) (ids : List String) (now : ℕ)
      → Keeps (Sound rt log) (to_signer rt row organization_id document_id ids now)
  unfolding to_signer
  to_signer-Keeps row organization_id document_id ids now =
      search (keeps_rules, id_or_next-Keeps) depth 30

  to_signers-Keeps :
      (rows : List SignerRow) (organization_id document_id : String) (ids : List String) (now : ℕ)
      → Keeps (Sound rt log) (to_signers rt rows organization_id document_id ids now)
  unfolding to_signers
  to_signers-Keeps [] organization_id document_id ids now = search keeps_rules
  to_signers-Keeps (row ∷ rows) organization_id document_id ids now =
      let others = to_signers-Keeps rows organization_id document_id ids now in
      Keeps-bind _ _ (to_signer-Keeps row organization_id document_id ids now)
        (λ signer. Keeps-bind _ _ others (λ signers. Keeps-pure _))

  keep_fields-Keeps :
      (organization_id document_id : String) (kept fields : List SignatureField)
      → Keeps (Sound rt log) (keep_fields rt organization_id document_id kept fields)
  unfolding keep_fields
  keep_fields-Keeps organization_id document_id kept fields =
      search (keeps_rules, Sound-on_fields) depth 20

  store_signers-Keeps :
      (input : ReplaceSignersInput) (organization_id : String) (document : Document)
      (mode : SigningMode) (signers : List Signer) (now : ℕ)
      → Keeps (Sound rt log) (store_signers rt input organization_id document mode signers now)
  unfolding store_signers
  store_signers-Keeps input organization_id document mode signers now =
      search
        (
          keeps_rules, Sound-on_signers, keep_fields-Keeps, Sound-on_documents,
          maybe_mark_prepared-Keeps, Sound-append_event,
        )
        depth 40

  pub replace_document_signers-Keeps :
      (input : ReplaceSignersInput) → Keeps (Sound rt log) (replace_document_signers rt input)
  unfolding replace_document_signers
  replace_document_signers-Keeps input =
      search (keeps_rules, Sound-now_utc, to_signers-Keeps, store_signers-Keeps) depth 60

  to_field-Keeps :
      (row : FieldRow) (organization_id document_id : String) (ids : List String) (now : ℕ)
      → Keeps (Sound rt log) (to_field rt row organization_id document_id ids now)
  unfolding to_field
  to_field-Keeps row organization_id document_id ids now =
      search (keeps_rules, Sound-next_id) depth 30

  to_fields-Keeps :
      (rows : List FieldRow) (organization_id document_id : String) (ids : List String) (now : ℕ)
      → Keeps (Sound rt log) (to_fields rt rows organization_id document_id ids now)
  unfolding to_fields
  to_fields-Keeps [] organization_id document_id ids now = search keeps_rules
  to_fields-Keeps (row ∷ rows) organization_id document_id ids now =
      let others = to_fields-Keeps rows organization_id document_id ids now in
      Keeps-bind _ _ (to_field-Keeps row organization_id document_id ids now)
        (λ field. Keeps-bind _ _ others (λ fields. Keeps-pure _))

  store_fields-Keeps :
      (input : ReplaceFieldsInput) (organization_id : String) (document : Document)
      (signers : List Signer) (fields : List SignatureField) (now : ℕ)
      → Keeps (Sound rt log) (store_fields rt input organization_id document signers fields now)
  unfolding store_fields
  store_fields-Keeps input organization_id document signers fields now =
      search (keeps_rules, Sound-on_fields, maybe_mark_prepared-Keeps, Sound-append_event) depth 40

  pub replace_document_fields-Keeps :
      (input : ReplaceFieldsInput) → Keeps (Sound rt log) (replace_document_fields rt input)
  unfolding replace_document_fields
  replace_document_fields-Keeps input =
      search (keeps_rules, Sound-now_utc, to_fields-Keeps, store_fields-Keeps) depth 60

  issue_link-Keeps :
      (ttl : ℕ) (input : SendDocumentInput) (organization_id : String) (document : Document)
      (now : ℕ) (signer : Signer)
      → Keeps (Sound rt log) (issue_link rt ttl input organization_id document now signer)
  unfolding issue_link
  issue_link-Keeps ttl input organization_id document now signer =
      search
        (
          keeps_rules, Sound-generate_raw_token, Sound-next_id, Sound-create_session,
          Sound-append_event, Sound-on_outbox,
        )
        depth 40

  issue_links-Keeps :
      (ttl : ℕ) (input : SendDocumentInput) (organization_id : String) (document : Document)
      (now : ℕ) (signers : List Signer)
      → Keeps (Sound rt log) (issue_links rt ttl input organization_id document now signers)
  unfolding issue_links
  issue_links-Keeps ttl input organization_id document now [] = search keeps_rules
  issue_links-Keeps ttl input organization_id document now (signer ∷ signers) =
      let others = issue_links-Keeps ttl input organization_id document now signers in
      Keeps-bind _ _ (issue_link-Keeps ttl input organization_id document now signer)
        (λ link. Keeps-bind _ _ others (λ links. Keeps-pure _))

  store_sent-Keeps :
      (ttl : ℕ) (input : SendDocumentInput) (organization_id : String) (document : Document)
      (revision : DocumentRevision) (signers : List Signer) (now : ℕ) (expires_at : Option ℕ)
      → Keeps
          (Sound rt log)
          (store_sent rt ttl input organization_id document revision signers now expires_at)
  unfolding store_sent
  store_sent-Keeps ttl input organization_id document revision signers now expires_at =
      search (keeps_rules, Sound-on_documents, issue_links-Keeps, Sound-append_event) depth 40

  answer_sent-Keeps :
      (format : SendFormat) (organization_id : String) (sent : Document × List IssuedLink)
      (revision : DocumentRevision) (signers : List Signer) (fields : List SignatureField)
      (record_id : String)
      → Keeps
          (Sound rt log)
          (answer_sent rt format organization_id sent revision signers fields record_id)
  unfolding answer_sent
  answer_sent-Keeps format organization_id sent revision signers fields record_id =
      search (keeps_rules, Sound-on_idempotency) depth 30

  send_begun-Keeps :
      (format : SendFormat) (ttl : ℕ) (input : SendDocumentInput) (organization_id : String)
      (begun : Begun)
      → Keeps (Sound rt log) (send_begun rt format ttl input organization_id begun)
  unfolding send_begun
  send_begun-Keeps format ttl input organization_id (Begun.replay existing) = search keeps_rules
  send_begun-Keeps format ttl input organization_id (Begun.fresh begun) =
      search (keeps_rules, Sound-now_utc, store_sent-Keeps, answer_sent-Keeps) depth 60

  pub send_document-Keeps :
      (format : SendFormat) (session_ttl idempotency_ttl : ℕ) (input : SendDocumentInput)
      → Keeps (Sound rt log) (send_document rt format session_ttl idempotency_ttl input)
  unfolding send_document
  send_document-Keeps format session_ttl idempotency_ttl input =
      search (keeps_rules, Sound-now_utc, replay_or_begin_idempotency-Keeps, send_begun-Keeps) depth
        40
