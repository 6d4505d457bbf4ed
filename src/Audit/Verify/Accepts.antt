-- ===== src/Audit/Verify/Accepts.antt =====
-- Which logs are accepted.
use bug_free_fiesta.Prelude.{
  sym, All, ==_iff, if◌then◌else◌, eq_iff, ◌∙◌, inr, ap, inl, ◌==◌, arith, Bool-cases, ◌↔◌, refl,
  ◌+◌, ◌≡◌, ◌++◌, Bool, List, ℕ,
}
use bug_free_fiesta.Audit.Verify.{
  some, finalized_failures, order_failures, genesis_previous_event_hash, all_event_failures,
  AuditEvidence, Option, chain_failures, hash_of_stored, forbidden_payload_field,
  assert_approved_audit_payload, previous_hash_mismatch, genesis_previous_hash_mismatch,
  unsupported_schema_version, str_eq, event_failures, ok, succeeds, Json, err, String, Result, not,
  false, true, leb, [], none, ◌∷◌, when, FailureCode, insert_by_sequence, AuditEvent,
  first_misplaced, sort_by_sequence,
}
use bug_free_fiesta.Store.Ledger.Chain.{ChainFrom, Continues}
use bug_free_fiesta.Domain.Errors.{>>=-eq-ok, ok_injective}
use bug_free_fiesta.Audit.Verify.Artifacts.{
  nothing_when, not-false, finalized_clean, AsRecorded, nothing_left,
}

-- The events are numbered from `index` on.
abbrev Numbered : ℕ → List AuditEvent → Type 0
Numbered index [] = Unit {0}
Numbered index (event ∷ events) = (event.sequence ≡ index) × Numbered (index + 1) events

first_misplaced-none :
    (index : ℕ) (events : List AuditEvent)
    → (first_misplaced index events ≡ none) ↔ Numbered index events
unfolding first_misplaced
first_misplaced-none index [] = (λ h. tt, λ h. refl)
first_misplaced-none index (event ∷ events) =
    let (there, back) = first_misplaced-none (index + 1) events in
    elim (Bool-cases (event.sequence == index)) [
      | inl placed ↦ (λ h. (ground arith, there (ground arith)), λ h. ground (arith, back h.1))
      | inr other ↦ (λ h. absurd (ground arith), λ h. absurd (ground (arith, h.0)))
    ]

-- Numbered events are sorted already.
sort-Numbered :
    (index : ℕ) (events : List AuditEvent)
    → Numbered index events
    → sort_by_sequence events ≡ events
unfolding sort_by_sequence insert_by_sequence
sort-Numbered index [] h = refl
sort-Numbered index (event ∷ []) h = refl
sort-Numbered index (event ∷ next ∷ events) h =
    let rest = sort-Numbered (index + 1) (next ∷ events) h.1 in
    let before : leb event.sequence next.sequence ≡ true = ground (arith, h.0, h.1.0) in
    ap (insert_by_sequence event) rest ∙ rw before refl

seals :
    (r : Result String) (hash : String)
    → (elim r [ err e ↦ false | ok expected ↦ str_eq expected hash ] ≡ true) ↔ (r ≡ ok hash)
seals (err e) hash = (λ h. cc, λ h. cc)
seals (ok expected) hash =
    let (there, back) = eq_iff expected hash in
    (λ h. ap (λ x. ok x) (there h), λ h. back (ok_injective h))

approves : (r : Result (Unit {0})) → (succeeds r ≡ true) ↔ (r ≡ ok tt)
approves (err e) = (λ h. cc, λ h. cc)
approves (ok x) = (λ h. refl, λ h. refl)

four_clean :
    (a b c d : Bool) (x y z w : FailureCode) (event : AuditEvent)
    → a ≡ true
    → b ≡ true
    → c ≡ true
    → d ≡ true
    → when (not a) x event
        ++ (when (not b) y event ++ (when (not c) z event ++ when (not d) w event))
      ≡ []
four_clean a b c d x y z w event ha hb hc hd = ground (arith, ha, hb, hc, hd)

module _ (iso : ℕ → String) (sha256_json : Json → String) where
  -- An event with no failure continues the chain.
  event_clean :
      (is_first : Bool) (previous : String) (sequence : ℕ) (event : AuditEvent)
      → event.sequence ≡ sequence
      → (event_failures iso sha256_json is_first previous event ≡ [])
        ↔ Continues iso sha256_json sequence previous event
  unfolding event_failures
  event_clean is_first previous sequence event numbered = (
    λ h.
        let (version, h1) =
          nothing_left (when (not (event.chain_version == 1)) unsupported_schema_version event) _
            h in
        let (linked, h2) =
          nothing_left
            (when (not (str_eq event.previous_event_hash previous))
              (if is_first then genesis_previous_hash_mismatch else previous_hash_mismatch) event)
            _ h1 in
        let (payload, sealed) =
          nothing_left
            (when (not (succeeds (assert_approved_audit_payload event.payload)))
              forbidden_payload_field event)
            _ h2 in
        record {
          numbered = numbered;
          linked =
              (eq_iff event.previous_event_hash previous).0
                ((not-false _).0 ((nothing_when _ _ event).0 linked));
          versioned =
              (==_iff event.chain_version 1).0
                ((not-false _).0 ((nothing_when _ _ event).0 version));
          sealed =
              (seals (hash_of_stored iso sha256_json event) event.event_hash).0
                ((not-false _).0 ((nothing_when _ _ event).0 sealed));
          approved =
              (approves (assert_approved_audit_payload event.payload)).0
                ((not-false _).0 ((nothing_when _ _ event).0 payload));
        },
    λ c.
        four_clean (event.chain_version == 1) (str_eq event.previous_event_hash previous)
          (succeeds (assert_approved_audit_payload event.payload)) _ _ _ _ _ event
          ((==_iff event.chain_version 1).1 c.versioned)
          ((eq_iff event.previous_event_hash previous).1 c.linked)
          ((approves (assert_approved_audit_payload event.payload)).1 c.approved)
          ((seals (hash_of_stored iso sha256_json event) event.event_hash).1 c.sealed),
  )

  abbrev Finalized : AuditEvidence → String → List AuditEvent → Type 0
  Finalized evidence organization_id = All (AsRecorded evidence organization_id)

  events_clean :
      (evidence : AuditEvidence) (organization_id : String) (is_first : Bool) (index : ℕ)
      (previous : String) (events : List AuditEvent)
      → Numbered index events
      → (all_event_failures iso sha256_json evidence organization_id is_first previous events
          ≡ ok [])
        ↔ (ChainFrom iso sha256_json index previous events
            × Finalized evidence organization_id events)
  unfolding all_event_failures
  events_clean evidence organization_id is_first index previous [] numbered =
      (λ h. (tt, tt), λ h. refl)
  events_clean evidence organization_id is_first index previous (event ∷ events) numbered =
      let (clean, unclean) = event_clean is_first previous index event numbered.0 in
      let (there, back) =
        events_clean evidence organization_id false (index + 1) event.event_hash events
          numbered.1 in
      let own = event_failures iso sha256_json is_first previous event in
      (
        λ h.
            let (finalized, f, h1) =
              >>=-eq-ok (finalized_failures iso sha256_json evidence organization_id event) _ h in
            let (rest, r, h2) =
              >>=-eq-ok
                (all_event_failures iso sha256_json evidence organization_id false event.event_hash
                  events)
                _ h1 in
            let (nothing, others) = nothing_left own (finalized ++ rest) (ok_injective h2) in
            let (no_finalized, no_rest) = nothing_left finalized rest others in
            let (chain, sound) = there (r ∙ ap (λ x. ok x) no_rest) in
            (
              (clean nothing, chain),
              (
                (finalized_clean iso sha256_json evidence organization_id event).0
                    (f ∙ ap (λ x. ok x) no_finalized),
                sound,
              ),
            ),
        λ h.
            rw
              (
                (finalized_clean iso sha256_json evidence organization_id event).1 h.1.0,
                back (h.0.1, h.1.1),
                unclean h.0.0,
              )
              refl,
      )

ChainFrom-Numbered :
    (iso : ℕ → String) (sha256_json : Json → String) (index : ℕ) (previous : String)
    (events : List AuditEvent)
    → ChainFrom iso sha256_json index previous events
    → Numbered index events
ChainFrom-Numbered iso sha256_json index previous [] h = tt
ChainFrom-Numbered iso sha256_json index previous (event ∷ events) h =
    (h.0.numbered, ChainFrom-Numbered iso sha256_json (index + 1) event.event_hash events h.1)

order_clean :
    (first : AuditEvent) (events : List AuditEvent) (misplaced : Option AuditEvent)
    → order_failures first events misplaced ≡ []
    → misplaced ≡ none
order_clean first events none h = refl
order_clean first events (some event) h = absurd (ground arith)

-- A document's events have no failure exactly when they are a hash chain from the genesis hash, numbered
-- 0, 1, … in the order of their storage, each event of the supported version, with an approved payload
-- and sealed by the hash of its content and of the hash before it, and for each event that finalizes the
-- document there is an artifact, whose digest is the one that the event names, if it names one, and is
-- that of the bytes that are stored for it.
pub chain_failures_iff :
    (iso : ℕ → String) (sha256_json : Json → String) (evidence : AuditEvidence)
    (organization_id : String) (first : AuditEvent) (others : List AuditEvent)
    → (chain_failures iso sha256_json evidence organization_id first others ≡ ok []) ↔ (
        ChainFrom iso sha256_json 0 genesis_previous_event_hash (first ∷ others)
        × All (AsRecorded evidence organization_id) (first ∷ others))
unfolding chain_failures
chain_failures_iff iso sha256_json evidence organization_id first others =
    let events = first ∷ others in
    let failures = λ (es : List AuditEvent).
      all_event_failures iso sha256_json evidence organization_id true genesis_previous_event_hash
        es in
    let (placed, misplaced) = first_misplaced-none 0 events in
    (
      λ h.
          let (found, f, h1) = >>=-eq-ok (failures (sort_by_sequence events)) _ h in
          let (order, clean) =
            nothing_left (order_failures first events (first_misplaced 0 events)) found
              (ok_injective h1) in
          let numbered = placed (order_clean first events (first_misplaced 0 events) order) in
          (events_clean iso sha256_json evidence organization_id true 0 genesis_previous_event_hash
              events numbered).0
            (ap failures (sym (sort-Numbered 0 events numbered)) ∙ (f ∙ ap (λ x. ok x) clean)),
      λ h.
          let numbered =
            ChainFrom-Numbered iso sha256_json 0 genesis_previous_event_hash events h.0 in
          let clean =
            (events_clean iso sha256_json evidence organization_id true 0
                genesis_previous_event_hash events numbered).1
              h in
          rw (sort-Numbered 0 events numbered, clean, misplaced numbered) refl,
    )
