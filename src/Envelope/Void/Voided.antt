-- ===== src/Envelope/Void/Voided.antt =====
-- What an answered void has done.
use bug_free_fiesta.Program.{>>=-eq-done, pure, throw, Runtime, done, Repositories}
use bug_free_fiesta.Prelude.{eq_iff, subst, inr, ◌∙◌, sym, inl, refl, ◌+◌, none, ◌⊎◌, arith, ◌≡◌}
use bug_free_fiesta.Envelope.Requests.{
  insert_key, stable_json, require_idempotency_key, Begun, BeginInput, begin_from,
  replay_or_begin_idempotency,
}
use bug_free_fiesta.Envelope.Void.{
  void_begin, AuthorizationAction, some, assert_allowed, ok, RequestActor, organization_of_actor,
  replay_void_response, false, Option, String, PublicDocument, VoidDocumentInput, ℕ, pure,
  BodyFormat, find_document, void_document, answer_voided, void_begun,
}
use bug_free_fiesta.Store.Documents.{find_document, has_document_key}
use bug_free_fiesta.Domain.Entities.{Document, IdempotencyRecord}
use bug_free_fiesta.Envelope.Void.Closed.{
  Closed, store_void-HasVoided, HasVoided, session_ids, Distinct,
}
use bug_free_fiesta.Program.Done.{
  now_utc-done, lift_only, lift-done, require-done, gets-done, next_id-done, on_idempotency-done,
}
use bug_free_fiesta.Store.Ledger.{find_idempotency}
use bug_free_fiesta.Envelope.Requests.Replay.{replay_or_begin-StoredFor, StoredFor}
use bug_free_fiesta.Store.Rows.{find_row-holds}
use bug_free_fiesta.Domain.Json.{end, string, prop, object}

HasVoided-same_rows :
    (organization_id document_id : String) (s t : Repositories)
    → t.documents ≡ s.documents
    → t.sessions ≡ s.sessions
    → HasVoided organization_id document_id s
    → HasVoided organization_id document_id t
HasVoided-same_rows organization_id document_id s t documents sessions h = record {
  document = h.document;
  document_found =
      subst
        (λ rows.
          find_document (record { organization_id = organization_id; document_id = document_id })
            rows
          ≡ some h.document)
        (sym documents) h.document_found;
  document_state = h.document_state;
  closed = subst (Closed organization_id document_id) (sym sessions) h.closed;
}

module _ (rt : Runtime) where
  begin_from-sessions :
      (input : BeginInput) (o : Option IdempotencyRecord) (s u : Repositories)
      (row : IdempotencyRecord)
      → input.reuse_in_progress ≡ false
      → begin_from rt input o s ≡ done (Begun.fresh row) u
      → u.sessions ≡ s.sessions
  unfolding begin_from pure throw
  begin_from-sessions input none s u row once h =
      let (made, rows, stored, h1) = on_idempotency-done _ _ _ (next_id-done rt _ s h) in
      ground arith
  begin_from-sessions input (some existing) s u row once h =
      let (_, allowed, h1) = lift-done _ _ h in absurd (ground arith)

  replay_or_begin-sessions :
      (input : BeginInput) (s u : Repositories) (row : IdempotencyRecord)
      → input.reuse_in_progress ≡ false
      → replay_or_begin_idempotency rt input s ≡ done (Begun.fresh row) u
      → u.sessions ≡ s.sessions
  unfolding replay_or_begin_idempotency
  replay_or_begin-sessions input s u row once h =
      begin_from-sessions input (find_idempotency input.scope s.idempotency_records) s u row once
        (gets-done _ _ h)

  answer_voided-keeps :
      (format : BodyFormat) (organization_id : String) (voided : Document) (record_id : String)
      (s t : Repositories) (body : PublicDocument)
      → answer_voided rt format organization_id voided record_id s ≡ done body t
      → (t.documents ≡ s.documents) × (t.sessions ≡ s.sessions)
  unfolding answer_voided pure
  answer_voided-keeps format organization_id voided record_id s t body h =
      let (next, rows, stored, h1) =
        on_idempotency-done _ _ _ (gets-done _ _ (gets-done _ _ (gets-done _ _ h))) in
      (ground arith, ground arith)

  void_fresh-HasVoided :
      (format : BodyFormat) (input : VoidDocumentInput) (organization_id : String)
      (row : IdempotencyRecord) (s t : Repositories) (body : PublicDocument)
      → Distinct (session_ids s.sessions)
      → void_begun rt format input organization_id (Begun.fresh row) s ≡ done body t
      → HasVoided organization_id input.document_id t
  unfolding void_begun find_document has_document_key
  void_fresh-HasVoided format input organization_id row s t body distinct h =
      let (document, found, h1) = require-done _ _ _ (gets-done _ _ h) in
      let (_, allowed, h2) = lift-done _ _ h1 in
      let (voided, u, stores, h3) = >>=-eq-done _ _ _ (now_utc-done rt _ s h2) in
      let done_so =
        store_void-HasVoided rt input organization_id document voided _ _ u distinct stores in
      let (documents, sessions) =
        answer_voided-keeps format organization_id voided row.id u t body h3 in
      let held = find_row-holds _ s.documents document found in
      let same : document.id ≡ input.document_id =
        ground (arith, eq_iff document.id input.document_id) in
      subst (λ id. HasVoided organization_id id t) same
        (HasVoided-same_rows organization_id document.id u t documents sessions done_so)

  -- The answer is the one that is stored for this user, organization, route and key, and for the same
  -- document; reading the clock is all that happens.
  pub record Repeats (format : BodyFormat) (input : VoidDocumentInput) (organization_id : String)
      (s t : Repositories) (body : PublicDocument) : Type 0 where
    pub key : String
    pub key_given : require_idempotency_key input.idempotency_key ≡ ok key
    pub row : IdempotencyRecord
    pub stored :
        StoredFor
          (rt.sha256_json (object (prop "documentId" (string input.document_id) end)))
          (record {
            organization_id = organization_id;
            principal_id = input.actor.user_id;
            route = "POST /organizations/:organizationId/documents/:documentId/void";
            key = key;
          })
          s.idempotency_records
          row
    pub answer : replay_void_response format row.response_body ≡ ok body
    pub unchanged : t ≡ record s { clock_reads = s.clock_reads + 1 }

  outcome_of_void :
      (format : BodyFormat) (input : VoidDocumentInput) (organization_id key : String) (at ttl : ℕ)
      (begun : Begun) (s v t : Repositories) (body : PublicDocument)
      → Distinct (session_ids s.sessions)
      → require_idempotency_key input.idempotency_key ≡ ok key
      → replay_or_begin_idempotency rt
          (void_begin rt input organization_id key at ttl)
          (record s { clock_reads = s.clock_reads + 1 })
        ≡ done begun v
      → void_begun rt format input organization_id begun v ≡ done body t
      → Repeats format input organization_id s t body
        ⊎ HasVoided organization_id input.document_id t
  unfolding void_begun stable_json insert_key
  outcome_of_void format input organization_id key at ttl (Begun.replay row) s v t body distinct
        given h k =
      let (stored, same) =
        replay_or_begin-StoredFor rt (void_begin rt input organization_id key at ttl)
          (record s { clock_reads = s.clock_reads + 1 }) v row h in
      let (answer, left_same) =
        lift_only (replay_void_response format row.response_body) v t body k in
      inl (record {
        key = key;
        key_given = given;
        row = row;
        stored = stored;
        answer = answer;
        unchanged = sym left_same ∙ same;
      })
  outcome_of_void format input organization_id key at ttl (Begun.fresh row) s v t body distinct
        given h k =
      let kept =
        replay_or_begin-sessions (void_begin rt input organization_id key at ttl)
          (record s { clock_reads = s.clock_reads + 1 }) v row refl h in
      inr (
        void_fresh-HasVoided format input organization_id row v t body
          (subst (λ rows. Distinct (session_ids rows)) (sym kept) distinct) k)

-- A void that is answered was asked by an actor that may void the envelopes of its organization, and
-- either gives the answer that is stored for the same user, organization, route, key and document,
-- changing no row, or leaves the document voided and every session of the document closed. Sessions have
-- different ids.
pub void_document-HasVoided :
    (rt : Runtime) (format : BodyFormat) (idempotency_ttl_ms : ℕ) (input : VoidDocumentInput)
    (s t : Repositories) (body : PublicDocument)
    → Distinct (session_ids s.sessions)
    → void_document rt format idempotency_ttl_ms input s ≡ done body t
    → (organization_id : String) × (organization_of_actor (RequestActor.account_user input.actor)
        ≡ ok organization_id)
      × (assert_allowed
            (RequestActor.account_user input.actor)
            AuthorizationAction.document_void
            (record {
              organization_id = organization_id;
              document_id = some input.document_id;
              signer_id = none;
            })
          ≡ ok tt)
      × (Repeats rt format input organization_id s t body
          ⊎ HasVoided organization_id input.document_id t)
unfolding void_document
void_document-HasVoided rt format idempotency_ttl_ms input s t body distinct h =
    let (organization_id, actor, h1) = lift-done _ _ h in
    let (_, allowed, h2) = lift-done _ _ h1 in
    let (key, given, h3) = lift-done _ _ h2 in
    let (begun, v, begins, h4) = >>=-eq-done _ _ _ (now_utc-done rt _ s h3) in
    (
      organization_id,
      actor,
      allowed,
      outcome_of_void rt format input organization_id key _ _ begun s v t body distinct given begins
          h4,
    )
