-- ===== src/Audit/Verify/Artifacts.antt =====
-- When the artifact of a finalized document is as its event recorded it.
use bug_free_fiesta.Audit.Verify.{
  artifact_missing, failure, body_failures, text_value, artifact_digest_mismatch,
  artifact_object_key, ◌∷◌, none, true, false, string, [], ok, prop, some, when,
  audit_event_type_text, text_property, AuditEvent, ◌++◌, str_eq, Props, is_other, Json,
  FailureCode, not, Artifact, ℕ, finalized_failures, Option, artifact_body, String,
  verify_finalized_artifact, Bool, List, AuditEvidence,
}
use bug_free_fiesta.Domain.Statuses.{document_finalized, AuditEventType}
use bug_free_fiesta.Prelude.{
  sym, subst, ◌∙◌, Bool-cases, inr, inl, eq_iff, Option-cases, refl, arith, ◌≢◌, ◌↔◌, ◌⊎◌, ◌≡◌,
}
use bug_free_fiesta.Domain.Json.{end}
use bug_free_fiesta.Domain.Errors.{ok_injective, >>=-eq-ok}

module _ {ℓ} {A : Type ℓ} where
  pub nothing_left : (xs ys : List A) → xs ++ ys ≡ [] → (xs ≡ []) × (ys ≡ [])
  nothing_left [] ys h = (refl, h)
  nothing_left (x ∷ xs) ys h = cc

pub nothing_when :
    (b : Bool) (code : FailureCode) (event : AuditEvent) → (when b code event ≡ []) ↔ (b ≡ false)
nothing_when true code event = (λ h. cc, λ h. cc)
nothing_when false code event = (λ h. refl, λ h. refl)

pub not-false : (b : Bool) → (not b ≡ false) ↔ (b ≡ true)
not-false b = ground arith

-- The first property with the name `key` is the text.
abbrev pub Says : String → String → Props → Type 0
Says key text end = ⊥
Says key text (prop other value rest) =
    ((other ≡ key) × (value ≡ string text)) ⊎ ((other ≢ key) × Says key text rest)

-- The bytes that are stored for an artifact: under its key, and where there are none, under the key
-- that its digest gives.
abbrev pub IsStored : AuditEvidence → String → Artifact → List ℕ → Type 0
IsStored evidence organization_id artifact body =
    (evidence.get_object artifact.object_key ≡ some body)
    ⊎ ((evidence.get_object artifact.object_key ≡ none)
        × ((key : String) × (artifact_object_key organization_id artifact.sha256_digest ≡ ok key)
            × (evidence.get_object key ≡ some body)))

pub record Recorded (evidence : AuditEvidence) (organization_id : String) (event : AuditEvent)
    (artifact : Artifact) : Type 0 where
  pub named :
      (digest : String)
      → Says "finalizedSha256" digest event.payload
      → digest ≡ artifact.sha256_digest
  pub body : List ℕ
  pub stored : IsStored evidence organization_id artifact body
  pub hashed : evidence.sha256_hex body ≡ artifact.sha256_digest

-- An event that finalizes its document has an artifact that is as it was recorded.
abbrev pub AsRecorded : AuditEvidence → String → AuditEvent → Type 0
AsRecorded evidence organization_id event =
    event.type ≡ document_finalized
    → (artifact : Artifact) × (evidence.artifact ≡ some artifact)
      × Recorded evidence organization_id event artifact

value_iff : (value : Json) (text : String) → (text_value value ≡ some text) ↔ (value ≡ string text)
value_iff value text = ground arith

Says-iff :
    (key text : String) (value : Json) (other : String) (rest : Props)
    → ((text_property key rest ≡ some text) ↔ Says key text rest)
    → (text_property key (prop other value rest) ≡ some text)
      ↔ Says key text (prop other value rest)
Says-iff key text value other rest h =
    let (names, is_named) = eq_iff other key in
    let (read, back) = value_iff value text in
    elim (Bool-cases (str_eq other key)) [
      | inl same ↦ (
        λ k. inl (names same, read (rw same at k)),
        λ k. elim k [
          | inl (here, is_text) ↦ rw same (back is_text)
          | inr (apart, there) ↦ absurd (apart (names same))
        ],
      )
      | inr apart ↦ (
        λ k. inr (λ here. ground (arith, is_named here), h.0 (rw apart at k)),
        λ k. elim k [
          | inl (here, is_text) ↦ absurd (ground (arith, is_named here))
          | inr (differs, there) ↦ rw apart (h.1 there)
        ],
      )
    ]

property_iff :
    (key text : String) (payload : Props)
    → (text_property key payload ≡ some text) ↔ Says key text payload
property_iff key text end = (λ h. cc, λ h. absurd h)
property_iff key text (prop other value rest) =
    Says-iff key text value other rest (property_iff key text rest)

option_injective : {A : Type 0} {a b : A} → some a ≡ some b → a ≡ b
option_injective h = cc

other_iff :
    (o : Option String) (digest : String)
    → (is_other o digest ≡ false) ↔ ((text : String) → o ≡ some text → text ≡ digest)
other_iff none digest = (λ h text k. cc, λ h. refl)
other_iff (some expected) digest =
    let (there, back) = eq_iff digest expected in
    (
      λ h text k. subst (λ x. x ≡ digest) (option_injective k) (sym (there ((not-false _).0 h))),
      λ h. (not-false _).1 (back (sym (h expected refl))),
    )

IsStored-iff :
    (evidence : AuditEvidence) (organization_id : String) (artifact : Artifact) (body : List ℕ)
    → (artifact_body evidence organization_id artifact ≡ ok (some body))
      ↔ IsStored evidence organization_id artifact body
unfolding artifact_body
IsStored-iff evidence organization_id artifact body =
    elim (Option-cases (evidence.get_object artifact.object_key)) [
      | inl missing ↦ (
        λ h.
            let (key, built, found) =
              >>=-eq-ok (artifact_object_key organization_id artifact.sha256_digest) _
                (rw (missing, artifact_body) at h) in
            inr (missing, (key, built, ok_injective found)),
        λ h. elim h [
          | inl found ↦ absurd (ground arith)
          | inr (_, (key, built, found)) ↦ rw (artifact_body, missing, built, found) refl
        ],
      )
      | inr (held, found) ↦ (
        λ h. inl (found ∙ ok_injective (rw (found, artifact_body) at h)),
        λ h. elim h [
          | inl same ↦ rw (artifact_body, same) refl
          | inr (missing, _) ↦ absurd (ground arith)
        ],
      )
    ]

Recorded-of :
    (evidence : AuditEvidence) (organization_id : String) (event : AuditEvent) (artifact : Artifact)
    (found : Option (List ℕ))
    → artifact_body evidence organization_id artifact ≡ ok found
    → when
          (is_other (text_property "finalizedSha256" event.payload) artifact.sha256_digest)
          artifact_digest_mismatch
          event
        ++ body_failures evidence artifact event found
      ≡ []
    → Recorded evidence organization_id event artifact
Recorded-of evidence organization_id event artifact none fetched h =
    let (named, body) = nothing_left _ (failure artifact_missing event ∷ []) h in absurd cc
Recorded-of evidence organization_id event artifact (some body) fetched h =
    let (named, hashed) = nothing_left _ (body_failures evidence artifact event (some body)) h in
    record {
      named = λ digest says.
          (other_iff (text_property "finalizedSha256" event.payload) artifact.sha256_digest).0
            ((nothing_when _ _ event).0 named) digest
            ((property_iff "finalizedSha256" digest event.payload).1 says);
      body = body;
      stored = (IsStored-iff evidence organization_id artifact body).0 fetched;
      hashed =
          (eq_iff (evidence.sha256_hex body) artifact.sha256_digest).0
            ((not-false _).0 ((nothing_when _ _ event).0 hashed));
    }

named_clean :
    (evidence : AuditEvidence) (organization_id : String) (event : AuditEvent) (artifact : Artifact)
    → Recorded evidence organization_id event artifact
    → is_other (text_property "finalizedSha256" event.payload) artifact.sha256_digest ≡ false
named_clean evidence organization_id event artifact r =
    (other_iff (text_property "finalizedSha256" event.payload) artifact.sha256_digest).1
      (λ text says. r.named text ((property_iff "finalizedSha256" text event.payload).0 says))

hashed_clean :
    (evidence : AuditEvidence) (organization_id : String) (event : AuditEvent) (artifact : Artifact)
    (r : Recorded evidence organization_id event artifact)
    → str_eq (evidence.sha256_hex r.body) artifact.sha256_digest ≡ true
hashed_clean evidence organization_id event artifact r =
    (eq_iff (evidence.sha256_hex r.body) artifact.sha256_digest).1 r.hashed

Recorded-iff :
    (evidence : AuditEvidence) (organization_id : String) (event : AuditEvent) (artifact : Artifact)
    → (verify_finalized_artifact evidence organization_id event (some artifact) ≡ ok [])
      ↔ Recorded evidence organization_id event artifact
unfolding verify_finalized_artifact
Recorded-iff evidence organization_id event artifact = (
  λ h.
      let (found, fetched, h1) = >>=-eq-ok (artifact_body evidence organization_id artifact) _ h in
      Recorded-of evidence organization_id event artifact found fetched (ok_injective h1),
  λ r.
      let fetched = (IsStored-iff evidence organization_id artifact r.body).1 r.stored in
      let named = named_clean evidence organization_id event artifact r in
      let hashed = hashed_clean evidence organization_id event artifact r in
      rw (verify_finalized_artifact, fetched, named, hashed) refl,
)

finalizes :
    (type : AuditEventType)
    → (str_eq (audit_event_type_text type) "document_finalized" ≡ true)
      ↔ (type ≡ document_finalized)
finalizes AuditEventType.document_created = (λ h. cc, λ h. cc)
finalizes AuditEventType.revision_added = (λ h. cc, λ h. cc)
finalizes AuditEventType.fields_updated = (λ h. cc, λ h. cc)
finalizes AuditEventType.signers_updated = (λ h. cc, λ h. cc)
finalizes AuditEventType.document_sent = (λ h. cc, λ h. cc)
finalizes AuditEventType.session_issued = (λ h. cc, λ h. cc)
finalizes AuditEventType.session_revoked = (λ h. cc, λ h. cc)
finalizes AuditEventType.session_exchanged = (λ h. cc, λ h. cc)
finalizes AuditEventType.document_viewed = (λ h. cc, λ h. cc)
finalizes AuditEventType.consent_recorded = (λ h. cc, λ h. cc)
finalizes AuditEventType.signer_signed = (λ h. cc, λ h. cc)
finalizes AuditEventType.signer_declined = (λ h. cc, λ h. cc)
finalizes AuditEventType.document_voided = (λ h. cc, λ h. cc)
finalizes AuditEventType.document_expired = (λ h. cc, λ h. cc)
finalizes AuditEventType.finalization_started = (λ h. cc, λ h. cc)
finalizes AuditEventType.document_finalized = (λ h. refl, λ h. refl)
finalizes AuditEventType.finalization_failed = (λ h. cc, λ h. cc)
finalizes AuditEventType.artifact_downloaded = (λ h. cc, λ h. cc)
finalizes AuditEventType.inspection_accepted = (λ h. cc, λ h. cc)
finalizes AuditEventType.inspection_rejected = (λ h. cc, λ h. cc)
finalizes AuditEventType.upload_abandoned = (λ h. cc, λ h. cc)

pub finalized_clean :
    (iso : ℕ → String) (sha256_json : Json → String) (evidence : AuditEvidence)
    (organization_id : String) (event : AuditEvent)
    → (finalized_failures iso sha256_json evidence organization_id event ≡ ok [])
      ↔ AsRecorded evidence organization_id event
unfolding finalized_failures verify_finalized_artifact
finalized_clean iso sha256_json evidence organization_id event =
    let (is_final, final) = finalizes event.type in
    elim (Bool-cases (str_eq (audit_event_type_text event.type) "document_finalized")) [
      | inl final_event ↦ elim (Option-cases evidence.artifact) [
        | inl missing ↦ (
          λ h. absurd (ground arith),
          λ h. let (artifact, found, recorded) = h (is_final final_event) in absurd (ground arith),
        )
        | inr (artifact, found) ↦ (
          λ h k. (
            artifact,
            found,
            (Recorded-iff evidence organization_id event artifact).0
                (rw (finalized_failures, final_event, found) at h),
          ),
          λ h.
              let (other, found', recorded) = h (is_final final_event) in
              rw (finalized_failures, final_event, found')
                ((Recorded-iff evidence organization_id event other).1 recorded),
        )
      ]
      | inr another ↦
          (λ h k. absurd (ground (arith, final k)), λ h. rw (finalized_failures, another) refl)
    ]
