-- ===== src/Signing/Complete/Answers.antt =====
-- What an answer of completeSigning stands for, and the checks before it.
use bug_free_fiesta.Signing.Complete.{
  replay_complete_response, validate_signature_png, complete_begin, fields_of_document,
  decode_png_base64, sorted_texts, assigned_to, strings, array, consent_of_session, png_or_error,
  ValidatedPng, ok, ConsentRecord, has_id, string, all, can_signer_act_now, Option,
  signers_of_document, guard, require_idempotency_key, prop, signer_status_eq, ApplicationError,
  Payload, SignatureField, CompleteSigningResult, true, ℕ, InkSupport, String, Signer, decoded_ink,
  List, select_fields, Bool, SignerStatus, checked_consent, Result, all_required_signed,
  LoadedSignerSession, Runtime, CompleteSigningInput,
}
use bug_free_fiesta.Signing.Checks.{LoadSignerSessionInput}
use bug_free_fiesta.Program.{Repositories}
use bug_free_fiesta.Prelude.{
  ◌+◌, not, none, inr, refl, inl, subst, eq_iff, ◌∙◌, false, Bool-cases, [], is_none, some, keep_if,
  ◌∷◌, sym, ◌↔◌, arith, ap, All, ◌≡◌,
}
use bug_free_fiesta.Domain.Entities.{IdempotencyRecord}
use bug_free_fiesta.Domain.Errors.{ok_or_err, err, ok_injective}
use bug_free_fiesta.Envelope.Requests.Replay.{StoredFor}
use bug_free_fiesta.Domain.Json.{end, boolean, object}
use bug_free_fiesta.Envelope.Requests.{stable_json, request_hash_of}

-- Every required field is among the requested ones.
abbrev pub Covers : List String → List SignatureField → Type 0
Covers field_ids = All (λ field. field.required ≡ true → has_id field.id field_ids ≡ true)

covers :
    (field_ids : List String) (fields : List SignatureField)
    → all (λ field. has_id field.id field_ids) (keep_if (λ field. field.required) fields) ≡ true
    → Covers field_ids fields
covers field_ids [] h = tt
covers field_ids (field ∷ fields) h =
    let keeps = λ (f : SignatureField). f.required in
    elim (Bool-cases field.required) [
      | inl needed ↦ ((λ _. ground arith), covers field_ids fields (ground arith))
      | inr spare ↦ ((λ needed. absurd (ground arith)), covers field_ids fields (ground arith))
    ]

pub select_fields-Covers :
    (fields selected : List SignatureField) (field_ids : List String)
    → select_fields fields field_ids ≡ ok selected
    → Covers field_ids fields
unfolding select_fields
select_fields-Covers fields selected field_ids h = covers field_ids fields (ground arith)

pub consented :
    (copy_id : String) (found : Option ConsentRecord) (consent : ConsentRecord)
    → checked_consent copy_id found ≡ ok consent
    → (found ≡ some consent) × (consent.consent_copy_id ≡ copy_id)
unfolding checked_consent
consented copy_id none consent h = cc
consented copy_id (some stored) consent h =
    let same : stored ≡ consent = ground arith in
    let read : stored.consent_copy_id ≡ copy_id =
      ground (arith, eq_iff stored.consent_copy_id copy_id) in
    (ap some same, subst (λ (c : ConsentRecord). c.consent_copy_id ≡ copy_id) same read)

pub guard-true : (b : Bool) (e : ApplicationError) → guard b e ≡ ok tt → b ≡ true
guard-true b e h = ground arith

pub status_is_signed :
    (status : SignerStatus)
    → signer_status_eq status SignerStatus.signed ≡ true
    → status ≡ SignerStatus.signed
status_is_signed status h = ground arith

abbrev pub completing_input : CompleteSigningInput → LoadSignerSessionInput
completing_input input = record {
  raw_token = input.raw_token;
  require_exchanged = true;
  allow_completed = true;
  account_user_id = input.account_user_id;
}

abbrev pub roster_of : LoadedSignerSession → Repositories → List Signer
roster_of loaded s = signers_of_document loaded.actor.organization_id loaded.document.id s.signers

-- The signer was in turn, had accepted the disclosure that is named, and asked for every field that is
-- required of it.
pub record MaySign (input : CompleteSigningInput) (loaded : LoadedSignerSession) (s : Repositories)
    : Type 0 where
  pub in_turn :
      can_signer_act_now loaded.document.signing_mode loaded.signer (roster_of loaded s) ≡ true
  pub consent : ConsentRecord
  pub consent_found :
      consent_of_session loaded.actor.organization_id loaded.session.id s.consents ≡ some consent
  pub consent_copy : consent.consent_copy_id ≡ input.consent_copy_id
  pub covered : Covers input.field_ids (
      keep_if
        (assigned_to loaded.signer)
        (fields_of_document loaded.actor.organization_id loaded.document.id s.fields))

-- The request, as its digest is taken: an image counts by being there.
abbrev pub request_of : CompleteSigningInput → LoadedSignerSession → Payload
request_of input loaded = prop "documentId" (string loaded.document.id) (
    prop "signerId" (string loaded.signer.id) (
      prop "consentCopyId" (string input.consent_copy_id) (
        prop "fieldIds" (array (strings (sorted_texts input.field_ids))) (
          prop "hasSignature" (boolean (not (is_none input.signature)))
            (prop "hasInitials" (boolean (not (is_none input.initials))) end)))))

-- The answer is the one that is stored for this signer, organization and key, and for the same request;
-- reading the clock is all that happens.
pub record RepeatsAnswer (rt : Runtime) (support : InkSupport) (input : CompleteSigningInput)
    (loaded : LoadedSignerSession) (result : CompleteSigningResult) (s t : Repositories)
    : Type 0 where
  pub key : String
  pub key_given : require_idempotency_key input.idempotency_key ≡ ok key
  pub row : IdempotencyRecord
  pub stored :
      StoredFor
        (rt.sha256_json (object (stable_json (request_of input loaded))))
        (record {
          organization_id = loaded.actor.organization_id;
          principal_id = loaded.signer.id;
          route = "POST /signing/complete";
          key = key;
        })
        s.idempotency_records
        row
  pub answer : replay_complete_response support row.response_body ≡ ok result
  pub unchanged : t ≡ record s { clock_reads = s.clock_reads + 1 }

-- The answer to a signer that has signed before; reading the clock is all that happens.
pub record AnswersAgain (loaded : LoadedSignerSession) (result : CompleteSigningResult)
    (s t : Repositories) : Type 0 where
  pub signed : loaded.signer.status ≡ SignerStatus.signed
  pub answer : (result.document_id ≡ loaded.document.id) × (result.signer_id ≡ loaded.signer.id)
  pub accepted :
      (result.accepted ≡ true)
      ↔ All (λ (row : Signer). row.status ≡ SignerStatus.signed) (roster_of loaded s)
  pub unchanged : t ≡ s

png_or_error-given :
    (decoded : Result (List ℕ)) (max_bytes : ℕ) (png : Option ValidatedPng)
    → png_or_error decoded max_bytes ≡ ok png
    → is_none png ≡ false
png_or_error-given (err e) max_bytes png h = cc
png_or_error-given (ok body) max_bytes png h =
    elim (ok_or_err (validate_signature_png body max_bytes)) [
      | inl (valid, accepted) ↦ ground arith
      | inr (e, refused) ↦ absurd (ground arith)
    ]

pub decoded_ink-given :
    (support : InkSupport) (image : Option String) (png : Option ValidatedPng)
    → decoded_ink support image ≡ ok png
    → is_none png ≡ is_none image
unfolding decoded_ink
decoded_ink-given support none png h = ap is_none (sym (ok_injective h))
decoded_ink-given support (some text) png h =
    png_or_error-given (decode_png_base64 support.from_base64 text) support.max_png_bytes png h

required_signed_iff :
    (roster : List Signer)
    → (all_required_signed roster ≡ true)
      ↔ All (λ (row : Signer). row.status ≡ SignerStatus.signed) roster
unfolding all_required_signed
required_signed_iff [] = (λ h. tt, λ h. refl)
required_signed_iff (row ∷ roster) =
    let (there, back) = required_signed_iff roster in
    (
      λ h. (status_is_signed row.status (ground arith), there (ground arith)),
      λ h. ground (arith, h.0, back h.1),
    )

pub answers_again :
    (loaded : LoadedSignerSession) (result : CompleteSigningResult) (s t : Repositories)
    → loaded.signer.status ≡ SignerStatus.signed
    → record {
      accepted = all_required_signed (roster_of loaded s);
      document_id = loaded.document.id;
      signer_id = loaded.signer.id;
    }
      ≡ result
    → s ≡ t
    → AnswersAgain loaded result s t
answers_again loaded result s t signed answer same =
    let said : all_required_signed (roster_of loaded s) ≡ result.accepted =
      ap (λ (r : CompleteSigningResult). r.accepted) answer in
    let (there, back) = required_signed_iff (roster_of loaded s) in
    record {
      signed = signed;
      answer = (
        sym (ap (λ (r : CompleteSigningResult). r.document_id) answer),
        sym (ap (λ (r : CompleteSigningResult). r.signer_id) answer),
      );
      accepted = (λ h. there (said ∙ h), λ h. sym said ∙ back h);
      unchanged = sym same;
    }

pub stored_request :
    (rt : Runtime) (support : InkSupport) (input : CompleteSigningInput)
    (loaded : LoadedSignerSession) (signature initials : Option ValidatedPng) (key : String)
    (now : ℕ) (rows : List IdempotencyRecord) (row : IdempotencyRecord)
    → is_none signature ≡ is_none input.signature
    → is_none initials ≡ is_none input.initials
    → StoredFor
        (request_hash_of rt (
          complete_begin rt support input loaded
            (not (is_none signature))
            (not (is_none initials))
            key
            now))
        (record {
          organization_id = loaded.actor.organization_id;
          principal_id = loaded.signer.id;
          route = "POST /signing/complete";
          key = key;
        })
        rows
        row
    → StoredFor
        (rt.sha256_json (object (stable_json (request_of input loaded))))
        (record {
          organization_id = loaded.actor.organization_id;
          principal_id = loaded.signer.id;
          route = "POST /signing/complete";
          key = key;
        })
        rows
        row
stored_request rt support input loaded signature initials key now rows row inked inked' h =
    rw (← inked, ← inked') h
