-- ===== src/Envelope/Void/Replay.antt =====
-- A void that is asked for again under the same key.
use bug_free_fiesta.Program.{
  ◌>>=◌, now_utc, lift, left, >>=-eq-done, pure, Runtime, done, Repositories,
}
use bug_free_fiesta.Prelude.{
  eq_refl, ◌++◌, true, str_eq, ◌+◌, refl, [], ◌∙◌, subst, arith, sym, ap, ◌≡◌,
}
use bug_free_fiesta.Envelope.Void.{
  none, AuthorizationAction, assert_allowed, RequestActor, organization_of_actor, void_begin,
  now_utc, lift, replay_or_begin_idempotency, void_document, BeginInput, is_open_status,
  fields_of_document, signers_of_document, ◌∷◌, revision_of, complete_idempotency, ok, ℕ, Begun,
  DocumentState, mark_voided, pure, some, String, VoidDocumentInput, void_begun, bump_document,
  answer_voided, List, replay_void_response, store_void, revoke_listed,
}
use bug_free_fiesta.Envelope.Public.{to_public_document, PublicDocument, BodyFormat}
use bug_free_fiesta.Store.Documents.{mark_voided, bump_document, bump_current}
use bug_free_fiesta.Domain.Entities.{SigningSession, Document, IdempotencyRecord}
use bug_free_fiesta.Program.Done.{
  lift_only, now_utc-done, lift-done, gets-done, on_idempotency-done, require-done,
  on_documents-done,
}
use bug_free_fiesta.Program.Keeps.{Keeps-pure, Keeps-bind, Keeps-if, keeps_rules, Keeps}
use bug_free_fiesta.Store.Rows.{update_row-ok}
use bug_free_fiesta.Program.Untouched.{
  SameRequests-write_session, SameRequests-append_event, SameRequests-on_documents, SameRequests,
}
use bug_free_fiesta.Envelope.Requests.Replay.{
  replay_or_begin-answered, completed_found, completed_row, replay_or_begin-fresh,
  replay_or_begin-replay, Unused,
}
use bug_free_fiesta.Store.Ledger.{find_idempotency}
use bug_free_fiesta.Envelope.Requests.{
  require_idempotency_key, new_record, has_response, request_hash_of,
}

module _ (rt : Runtime) where
  revoke_listed-SameRequests :
      (records : List IdempotencyRecord) (organization_id : String) (now : ℕ)
      (sessions : List SigningSession)
      → Keeps (SameRequests records) (revoke_listed organization_id now sessions)
  unfolding revoke_listed
  revoke_listed-SameRequests records organization_id now [] = search keeps_rules
  revoke_listed-SameRequests records organization_id now (session ∷ rest) =
      let others = revoke_listed-SameRequests records organization_id now rest in
      Keeps-if (is_open_status session.status) _ _
        (Keeps-bind _ _ (SameRequests-write_session records _ _)
          (λ _. Keeps-bind _ _ others (λ ids. Keeps-pure _)))
        others

  store_void-SameRequests :
      (records : List IdempotencyRecord) (input : VoidDocumentInput) (organization_id : String)
      (document : Document) (now : ℕ)
      → Keeps (SameRequests records) (store_void rt input organization_id document now)
  unfolding store_void
  store_void-SameRequests records input organization_id document now =
      search
        (
          keeps_rules, SameRequests-on_documents, revoke_listed-SameRequests,
          SameRequests-append_event,
        )
        depth 30

  -- The document that a void writes is voided.
  store_void-voided :
      (input : VoidDocumentInput) (organization_id : String) (document voided : Document) (now : ℕ)
      (s t : Repositories)
      → store_void rt input organization_id document now s ≡ done voided t
      → voided.state ≡ DocumentState.voided
  unfolding store_void bump_document bump_current mark_voided pure
  store_void-voided input organization_id document voided now s t h =
      let (next, rows, moved, h1) = on_documents-done _ _ _ h in
      let (current, found, stepped, stored) = update_row-ok _ _ _ s.documents moved in
      let (revoked, u, revokes, h2) = >>=-eq-done _ _ _ (gets-done _ _ h1) in
      let (event, v, appended, h3) = >>=-eq-done _ _ u h2 in
      let same : next ≡ voided = ground arith in
      subst (λ d. d.state ≡ DocumentState.voided) same (ground arith)

replayed :
    (format : BodyFormat) (body : PublicDocument)
    → format.safe_parse (format.stored_body body) ≡ some body
    → body.state ≡ DocumentState.voided
    → replay_void_response format (some (format.stored_body body)) ≡ ok body
unfolding replay_void_response
replayed format body read state = rw (read, state) refl

module _ (rt : Runtime) (format : BodyFormat) where
  answer_voided-stores :
      (organization_id : String) (voided : Document) (record_id : String) (s t : Repositories)
      (body : PublicDocument)
      → answer_voided rt format organization_id voided record_id s ≡ done body t
      → (body.state ≡ voided.state)
        × ((next : IdempotencyRecord) × (complete_idempotency organization_id record_id 200
                (format.stored_body body)
                s.idempotency_records
              ≡ ok (next, t.idempotency_records)))
  unfolding answer_voided to_public_document pure
  answer_voided-stores organization_id voided record_id s t body h =
      let (next, rows, stored, h1) =
        on_idempotency-done _ _ _ (gets-done _ _ (gets-done _ _ (gets-done _ _ h))) in
      let answer =
        to_public_document voided
          (revision_of organization_id voided.current_revision_id s.revisions)
          (signers_of_document organization_id voided.id s.signers)
          (fields_of_document organization_id voided.id s.fields) in
      let same : answer ≡ body = ground arith in
      let kept : rows ≡ t.idempotency_records = ground arith in
      (
        subst (λ (b : PublicDocument). b.state ≡ voided.state) same refl,
        (
          next,
          subst
              (λ (b : PublicDocument).
                complete_idempotency organization_id record_id 200 (format.stored_body b)
                  s.idempotency_records
                ≡ ok (next, t.idempotency_records))
              same (stored ∙ ap (λ r. ok (next, r)) kept),
        ),
      )

  -- A void that was begun anew stores its answer with its record.
  void_begun-stores :
      (input : VoidDocumentInput) (organization_id : String) (row : IdempotencyRecord)
      (s t : Repositories) (body : PublicDocument)
      → void_begun rt format input organization_id (Begun.fresh row) s ≡ done body t
      → (body.state ≡ DocumentState.voided)
        × ((next : IdempotencyRecord) × (complete_idempotency organization_id row.id 200
                (format.stored_body body)
                s.idempotency_records
              ≡ ok (next, t.idempotency_records)))
  unfolding void_begun
  void_begun-stores input organization_id row s t body h =
      let (document, found, h1) = require-done _ _ _ (gets-done _ _ h) in
      let (_, allowed, h2) = lift-done _ _ h1 in
      let (voided, u, stores, h3) = >>=-eq-done _ _ _ (now_utc-done rt _ s h2) in
      let (state, (next, completed)) =
        answer_voided-stores organization_id voided row.id u t body h3 in
      let kept : u.idempotency_records ≡ s.idempotency_records =
        subst (λ o. SameRequests s.idempotency_records (left o)) stores
          ((store_void-SameRequests rt s.idempotency_records input organization_id document _).at _
            refl) in
      (
        state ∙ store_void-voided rt input organization_id document voided _ _ u stores,
        (
          next,
          subst
              (λ rows.
                complete_idempotency organization_id row.id 200 (format.stored_body body) rows
                ≡ ok (next, t.idempotency_records))
              kept completed,
        ),
      )

  -- The answer is stored under the key of the request, with the hash of the request.
  record Answered (begin : BeginInput) (body : PublicDocument) (rows : List IdempotencyRecord)
      : Type 0 where
    pub row : IdempotencyRecord
    pub stored : find_idempotency begin.scope rows ≡ some row
    pub hashed : str_eq row.request_hash (request_hash_of rt begin) ≡ true
    pub complete : has_response row ≡ true
    pub answer : replay_void_response format row.response_body ≡ ok body

  Answered-void :
      (idempotency_ttl_ms : ℕ) (input : VoidDocumentInput) (organization_id key : String)
      (u : Repositories) (body : PublicDocument) (at : ℕ)
      → organization_of_actor (RequestActor.account_user input.actor) ≡ ok organization_id
      → assert_allowed
          (RequestActor.account_user input.actor)
          AuthorizationAction.document_void
          (record {
            organization_id = organization_id;
            document_id = some input.document_id;
            signer_id = none;
          })
        ≡ ok tt
      → require_idempotency_key input.idempotency_key ≡ ok key
      → Answered
          (void_begin rt input organization_id key at idempotency_ttl_ms)
          body
          u.idempotency_records
      → void_document rt format idempotency_ttl_ms input u
        ≡ done body (record u { clock_reads = u.clock_reads + 1 })
  unfolding void_document lift now_utc ◌>>=◌ void_begun
  Answered-void idempotency_ttl_ms input organization_id key u body at actor allowed given a =
      let begun =
        replay_or_begin-answered rt
          (void_begin rt input organization_id key (rt.clock_at u.clock_reads) idempotency_ttl_ms)
          (record u { clock_reads = u.clock_reads + 1 }) a.row a.stored a.hashed a.complete in
      rw (actor, allowed, given, begun, a.answer) refl

  begun_Answered :
      (input : VoidDocumentInput) (organization_id key : String) (at ttl : ℕ) (begun : Begun)
      (s u t : Repositories) (body : PublicDocument)
      → format.safe_parse (format.stored_body body) ≡ some body
      → Unused (rt.id_at s.ids_drawn) s.idempotency_records
      → replay_or_begin_idempotency rt (void_begin rt input organization_id key at ttl) s
        ≡ done begun u
      → void_begun rt format input organization_id begun u ≡ done body t
      → Answered (void_begin rt input organization_id key at ttl) body t.idempotency_records
  unfolding void_begun
  begun_Answered input organization_id key at ttl (Begun.replay row) s u t body reads new_id h k =
      let begin = void_begin rt input organization_id key at ttl in
      let (found, hashed, complete, same) = replay_or_begin-replay rt begin s u row h in
      let (answer, left_same) =
        lift_only (replay_void_response format row.response_body) u t body k in
      record {
        row = row;
        stored =
            subst
              (λ (v : Repositories). find_idempotency begin.scope v.idempotency_records ≡ some row)
              (sym same ∙ left_same) found;
        hashed = hashed;
        complete = complete;
        answer = answer;
      }
  begun_Answered input organization_id key at ttl (Begun.fresh row) s u t body reads new_id h k =
      let begin = void_begin rt input organization_id key at ttl in
      let hash = request_hash_of rt begin in
      let id = rt.id_at s.ids_drawn in
      let (missed, made, grown) = replay_or_begin-fresh rt begin s u row refl h in
      let (state, (next, completed)) = void_begun-stores input organization_id row u t body k in
      let stored_in : complete_idempotency organization_id id 200 (format.stored_body body)
            (s.idempotency_records ++ new_record begin hash id ∷ [])
          ≡ ok (next, t.idempotency_records) =
        subst
          (λ (r : IdempotencyRecord).
            complete_idempotency organization_id r.id 200 (format.stored_body body)
              (s.idempotency_records ++ r ∷ [])
            ≡ ok (next, t.idempotency_records))
          made
          (subst
            (λ rows.
              complete_idempotency organization_id row.id 200 (format.stored_body body) rows
              ≡ ok (next, t.idempotency_records))
            grown completed) in
      record {
        row = completed_row (new_record begin hash id) (format.stored_body body);
        stored =
            completed_found begin hash id (format.stored_body body) s.idempotency_records
              t.idempotency_records next new_id missed stored_in;
        hashed = eq_refl hash;
        complete = refl;
        answer = replayed format body reads state;
      }

-- A void that is answered has stored its answer: asked for again with the same input, whatever has
-- happened to the rows other than the idempotency records, it gives the same body, and it changes
-- nothing but the number of times the clock was read. The id drawn for a record is a new one, and the
-- body is read back as it was stored.
pub void_document-replays :
    (rt : Runtime) (format : BodyFormat) (idempotency_ttl_ms : ℕ) (input : VoidDocumentInput)
    (s t u : Repositories) (body : PublicDocument)
    → format.safe_parse (format.stored_body body) ≡ some body
    → Unused (rt.id_at s.ids_drawn) s.idempotency_records
    → void_document rt format idempotency_ttl_ms input s ≡ done body t
    → u.idempotency_records ≡ t.idempotency_records
    → void_document rt format idempotency_ttl_ms input u
      ≡ done body (record u { clock_reads = u.clock_reads + 1 })
unfolding void_document
void_document-replays rt format idempotency_ttl_ms input s t u body reads new_id h same =
    let (organization_id, actor, h1) = lift-done _ _ h in
    let (_, allowed, h2) = lift-done _ _ h1 in
    let (key, given, h3) = lift-done _ _ h2 in
    let (begun, v, begins, h4) = >>=-eq-done _ _ _ (now_utc-done rt _ s h3) in
    let a =
      begun_Answered rt format input organization_id key (rt.clock_at s.clock_reads)
        idempotency_ttl_ms begun _ v t body reads new_id begins h4 in
    Answered-void rt format idempotency_ttl_ms input organization_id key u body _ actor allowed
      given
      (subst
        (λ rows.
          Answered rt format
            (void_begin rt input organization_id key (rt.clock_at s.clock_reads) idempotency_ttl_ms)
            body rows)
        (sym same) a)
