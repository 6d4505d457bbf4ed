-- ===== src/Store/Ledger/Chain.antt =====
-- The hash chain of each document's audit events.
use bug_free_fiesta.Domain.Errors.{>>=-eq-ok, Result, ok}
use bug_free_fiesta.Store.Ledger.{
  hash_of_event, chain_of, stored_event, actor_type_text, audit_event_type_text,
  assert_approved_audit_payload, compute_audit_event_hash, next_previous_hash, next_sequence, ◌∷◌,
  Bool, ◌+◌, ChainKey, AuditEvent, AuditAppendInput, List, Json, String, ℕ, append_audit,
  latest_from, latest, find_latest, events_of_document, in_chain, genesis_previous_event_hash,
}
use bug_free_fiesta.Prelude.{
  inl, eq_iff, inr, if◌then◌else◌, Option, Bool-cases, subst, sym, true, refl, arith, ltb, ◌++◌,
  keep_if, [], ◌≡◌,
}

module _ (iso : ℕ → String) (sha256_json : Json → String) where
  -- The hash that a stored event has by its own content.
  abbrev pub hash_of_stored : AuditEvent → Result String
  hash_of_stored e = compute_audit_event_hash iso sha256_json (record {
    schema_version = e.chain_version;
    previous_event_hash = e.previous_event_hash;
    sequence = e.sequence;
    type = audit_event_type_text e.type;
    actor_type = actor_type_text e.actor_type;
    actor_id = e.actor_id;
    occurred_at = e.occurred_at;
    payload = e.payload;
  })

  -- One event continues a chain: its number, the hash before it, its version and its own hash.
  pub record Continues (sequence : ℕ) (previous : String) (e : AuditEvent) : Type 0 where
    pub numbered : e.sequence ≡ sequence
    pub linked : e.previous_event_hash ≡ previous
    pub versioned : e.chain_version ≡ 1
    pub sealed : hash_of_stored e ≡ ok e.event_hash
    pub approved : assert_approved_audit_payload e.payload ≡ ok tt

  abbrev pub ChainFrom : ℕ → String → List AuditEvent → Type 0
  ChainFrom sequence previous [] = Unit {0}
  ChainFrom sequence previous (e ∷ es) =
      Continues sequence previous e × ChainFrom (sequence + 1) e.event_hash es

  -- The events of a document, in the order of their storage, are a chain from the genesis hash.
  abbrev pub IsChain : ChainKey → List AuditEvent → Type 0
  IsChain key rows = ChainFrom 0 genesis_previous_event_hash (events_of_document key rows)

  ChainFrom-append :
      (sequence : ℕ) (previous : String) (head last : AuditEvent) (es : List AuditEvent)
      → head.sequence + 1 ≡ sequence
      → head.event_hash ≡ previous
      → ChainFrom sequence previous es
      → Continues ((latest_from head es).sequence + 1) (latest_from head es).event_hash last
      → ChainFrom sequence previous (es ++ last ∷ [])
  unfolding latest_from
  ChainFrom-append sequence previous head last [] s p chain c = (rw (← s, ← p) c, tt)
  ChainFrom-append sequence previous head last (e ∷ es) s p chain c =
      let newer : ltb head.sequence e.sequence ≡ true = ground arith in
      (
        chain.0,
        ChainFrom-append (sequence + 1) e.event_hash e last es (omega (arith, chain.0.numbered))
            refl chain.1 (rw (newer, latest_from) at c),
      )

  latest-append :
      (last : AuditEvent) (es : List AuditEvent)
      → ChainFrom 0 genesis_previous_event_hash es
      → Continues (next_sequence (latest es)) (next_previous_hash (latest es)) last
      → ChainFrom 0 genesis_previous_event_hash (es ++ last ∷ [])
  unfolding latest
  latest-append last [] chain c = (c, tt)
  latest-append last (e ∷ es) chain c =
      (chain.0, ChainFrom-append 1 e.event_hash e last es (ground arith) refl chain.1 c)

  keep_if-append_one :
      (p : AuditEvent → Bool) (rows : List AuditEvent) (last : AuditEvent)
      → keep_if p (rows ++ last ∷ [])
        ≡ (if p last then keep_if p rows ++ last ∷ [] else keep_if p rows)
  keep_if-append_one p [] last = ground arith
  keep_if-append_one p (row ∷ rows) last = ground (arith, keep_if-append_one p rows last)

  append_audit-ok :
      (event : AuditAppendInput) (rows rows' : List AuditEvent) (stored : AuditEvent)
      → append_audit iso sha256_json event rows ≡ ok (stored, rows')
      → (event_hash : String) × (stored
          ≡ stored_event event (find_latest (chain_of event) rows) event_hash)
        × (rows' ≡ rows ++ stored ∷ [])
        × Continues
            (next_sequence (find_latest (chain_of event) rows))
            (next_previous_hash (find_latest (chain_of event) rows))
            stored
  unfolding append_audit
  append_audit-ok event rows rows' stored h =
      let head = find_latest (chain_of event) rows in
      let (_, approved, rest) = >>=-eq-ok (assert_approved_audit_payload event.payload) _ h in
      let (event_hash, sealed, made) =
        >>=-eq-ok
          (hash_of_event iso sha256_json event (next_sequence head) (next_previous_hash head)) _
          rest in
      let same : stored_event event head event_hash ≡ stored = ground arith in
      let fits : Continues (next_sequence head) (next_previous_hash head)
          (stored_event event head event_hash) =
        record {
          numbered = refl;
          linked = refl;
          versioned = refl;
          sealed = sealed;
          approved = approved;
        } in
      (
        event_hash,
        sym same,
        ground arith,
        subst (Continues (next_sequence head) (next_previous_hash head)) same fits,
      )

same_chain :
    (key : ChainKey) (event : AuditAppendInput) (head : Option AuditEvent) (event_hash : String)
    → in_chain key (stored_event event head event_hash) ≡ true
    → chain_of event ≡ key
unfolding in_chain
same_chain key event head event_hash h = ground (
  arith,
  eq_iff event.organization_id key.organization_id,
  eq_iff event.document_id key.document_id,
)

-- Appending keeps every document's events a chain, numbered 0, 1, … from the genesis hash, each event
-- sealed by the hash of its content and of the hash before it; the new event stands at the end.
pub append_audit-IsChain :
    (iso : ℕ → String) (sha256_json : Json → String) (key : ChainKey) (event : AuditAppendInput)
    (rows rows' : List AuditEvent) (stored : AuditEvent)
    → append_audit iso sha256_json event rows ≡ ok (stored, rows')
    → IsChain iso sha256_json key rows
    → IsChain iso sha256_json key rows' × (rows' ≡ rows ++ stored ∷ [])
unfolding find_latest
append_audit-IsChain iso sha256_json key event rows rows' stored h chain =
    let (event_hash, made, grown, fits) =
      append_audit-ok iso sha256_json event rows rows' stored h in
    let split = keep_if-append_one iso sha256_json (in_chain key) rows stored in
    (
      rw (grown, split)
          (elim (Bool-cases (in_chain key stored)) [
            | inr other ↦ rw other chain
            | inl mine ↦
                let same =
                  same_chain key event (find_latest (chain_of event) rows) event_hash
                    (subst (λ e. in_chain key e ≡ true) made mine) in
                rw mine (
                  latest-append iso sha256_json stored (events_of_document key rows) chain (
                    subst
                      (λ k.
                        Continues iso sha256_json (next_sequence (find_latest k rows))
                          (next_previous_hash (find_latest k rows)) stored)
                      same fits))
          ]),
      grown,
    )
