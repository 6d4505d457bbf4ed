-- ===== src/Envelope/Prepare/Prepared.antt =====
-- When an envelope is prepared, and which fields it has.
use bug_free_fiesta.Program.{pure, done, Repositories}
use bug_free_fiesta.Prelude.{
  refl, ◌&&◌, [], ◌==◌, ◌++◌, All, inr, ◌∙◌, ap, sym, inl, Bool-cases, arith, ◌≡◌,
}
use bug_free_fiesta.Domain.Lifecycle.{is_preparation_state, can_transition_document}
use bug_free_fiesta.Envelope.Prepare.{
  false, str_eq, ◌∷◌, any, fields_of_document, assigned_to, assert_each_signer_has_field, length,
  String, keep_if, replace_all_fields, envelope_is_prepared, SignatureField, Signer, not,
  preparation_state, List, ok, Document, true, ◌||◌, ℕ, bump_document, Bool, pure,
  set_preparation_state, maybe_mark_prepared,
}
use bug_free_fiesta.Store.Documents.{bump_document, set_preparation_state, bump_current}
use bug_free_fiesta.Domain.Statuses.{document_state_eq, DocumentState}
use bug_free_fiesta.Program.Done.{on_documents_only}
use bug_free_fiesta.Store.Rows.{update_row-ok}
use bug_free_fiesta.Store.Signers.{replace_all_fields, fields_of_document}

-- The step of the row, where the state changes.
prepared_step :
    (version : ℕ) (state : DocumentState) (current next : Document)
    → bump_current version (set_preparation_state state) current ≡ ok next
    → next.state ≡ state
unfolding bump_current set_preparation_state
prepared_step version state current next h = ground arith

preparation_moves :
    (state : DocumentState) (prepared : Bool)
    → is_preparation_state state ≡ true
    → (document_state_eq state (preparation_state prepared)
        || not (can_transition_document state (preparation_state prepared)))
      ≡ true
    → state ≡ preparation_state prepared
unfolding can_transition_document
preparation_moves state prepared free h = ground arith

-- An envelope in preparation is marked as prepared exactly when it is.
pub maybe_mark_prepared-done :
    (document : Document) (signers : List Signer) (fields : List SignatureField)
    (s t : Repositories) (next : Document)
    → is_preparation_state document.state ≡ true
    → maybe_mark_prepared document signers fields s ≡ done next t
    → (next.state ≡ preparation_state (envelope_is_prepared document signers fields))
      × ((rows : List Document) × (t ≡ record s { documents = rows }))
unfolding maybe_mark_prepared pure bump_document
maybe_mark_prepared-done document signers fields s t next free h =
    let prepared = envelope_is_prepared document signers fields in
    let state = preparation_state prepared in
    elim (Bool-cases (
      document_state_eq document.state state
      || not (can_transition_document document.state state))) [
        | inl stays ↦
            let same : document ≡ next = ground arith in
            let kept : t ≡ s = ground arith in
            (
              sym (ap (λ (d : Document). d.state) same)
                  ∙ preparation_moves document.state prepared free stays,
              (s.documents, kept),
            )
        | inr moves ↦
            let (rows, moved, kept) =
              on_documents_only
                (bump_document
                  (record { organization_id = document.organization_id; document_id = document.id })
                  document.version (set_preparation_state state))
                s t next (rw moves at h) in
            let (current, found, stepped, stored) = update_row-ok _ _ _ s.documents moved in
            (prepared_step document.version state current next stepped, (rows, kept))
      ]

has_field :
    (signer : Signer) (fields : List SignatureField)
    → (length (keep_if (assigned_to signer) fields) == 0) ≡ false
    → any (assigned_to signer) fields ≡ true
has_field signer [] h = cc
has_field signer (field ∷ fields) h = ground (arith, has_field signer fields)

pub each_has_field :
    (signers : List Signer) (fields : List SignatureField)
    → assert_each_signer_has_field signers fields ≡ ok tt
    → All (λ signer. any (assigned_to signer) fields ≡ true) signers
unfolding assert_each_signer_has_field
each_has_field [] fields h = tt
each_has_field (signer ∷ signers) fields h =
    elim (Bool-cases (length (keep_if (assigned_to signer) fields) == 0)) [
      | inl none_there ↦ absurd (ground arith)
      | inr some_there ↦
          (has_field signer fields some_there, each_has_field signers fields (rw some_there at h))
    ]

abbrev pub of_document : String → String → SignatureField → Bool
of_document organization_id document_id row =
    str_eq row.organization_id organization_id && str_eq row.document_id document_id

module _ {ℓ} {A : Type ℓ} (p : A → Bool) where
  keep_if-All : (rows : List A) → All (λ row. p row ≡ true) rows → keep_if p rows ≡ rows
  keep_if-All [] h = refl
  keep_if-All (row ∷ rows) h = ground (arith, h.0, keep_if-All rows h.1)

  keep_if-none_then :
      (rows more : List A) → keep_if p (keep_if (λ row. not (p row)) rows ++ more) ≡ keep_if p more
  keep_if-none_then [] more = refl
  keep_if-none_then (row ∷ rows) more = ground (arith, keep_if-none_then rows more)

-- The fields of the document are the new ones, and no other.
pub replaced_fields :
    (organization_id document_id : String) (fields rows rows' stored : List SignatureField)
    → All (λ field. of_document organization_id document_id field ≡ true) fields
    → replace_all_fields organization_id document_id fields rows ≡ ok (stored, rows')
    → (stored ≡ fields) × (fields_of_document organization_id document_id rows' ≡ fields)
unfolding replace_all_fields fields_of_document
replaced_fields organization_id document_id fields rows rows' stored own h =
    let p = of_document organization_id document_id in
    let written : rows' ≡ keep_if (λ row. not (p row)) rows ++ fields = ground arith in
    (
      ground arith,
      ap (keep_if p) written ∙ (keep_if-none_then p rows fields ∙ keep_if-All p fields own),
    )
