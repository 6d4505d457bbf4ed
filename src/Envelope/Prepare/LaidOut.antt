-- ===== src/Envelope/Prepare/LaidOut.antt =====
-- What a replacement of the fields leaves of an envelope.
use bug_free_fiesta.Program.{>>=-eq-done, pure, Runtime, done, Repositories}
use bug_free_fiesta.Prelude.{◌+◌, subst, All, ◌∙◌, ap, sym, arith, ◌≡◌}
use bug_free_fiesta.Domain.Lifecycle.{assert_preparation_unlocked, is_preparation_state}
use bug_free_fiesta.Envelope.Prepare.{
  to_public_document, replace_document_fields, signers_of_document, box_of, map, pos, some,
  find_document, PublicDocument, any, fields_of_document, assigned_to, String, store_fields,
  ReplaceFieldsInput, envelope_is_prepared, SignatureField, Signer, preparation_state, List, ok,
  Document, true, ℕ, pure,
}
use bug_free_fiesta.Domain.Statuses.{FieldOverlapPolicy}
use bug_free_fiesta.Program.Done.{
  pure_only, now_utc-done, gets-done, require-done, append_event-done, on_fields-done, lift-done,
}
use bug_free_fiesta.Store.Signers.{fields_of_document}
use bug_free_fiesta.Domain.Entities.{DocumentRevision}
use bug_free_fiesta.Domain.FieldGeometry.Layout.{assert_field_layout_iff, Apart, OnPage}
use bug_free_fiesta.Envelope.Public.{to_public_document, to_public_signature_field}
use bug_free_fiesta.Envelope.Prepare.Prepared.{
  maybe_mark_prepared-done, replaced_fields, of_document, each_has_field,
}
use bug_free_fiesta.Envelope.Prepare.Given.{
  to_fields-FieldsOf, revision_of-IsCurrent, FieldsOf, IsCurrent, to_fields-of_document,
}

-- The fields are those of the input, one for each row; they lie on the pages of the current revision, no two overlap unless the policy allows it, every signer
-- has one, they are all that the document has, and the answer shows them and whether the envelope is
-- prepared.
pub record LaidOut (input : ReplaceFieldsInput) (s t : Repositories) (body : PublicDocument)
    : Type 0 where
  pub organization_id : String
  pub document : Document
  pub document_found :
      find_document
        (record { organization_id = organization_id; document_id = input.document_id })
        s.documents
      ≡ some document
  pub unlocked : is_preparation_state document.state ≡ true
  pub revision : DocumentRevision
  pub current : IsCurrent document s.revisions revision
  pub fields : List SignatureField
  pub as_given : FieldsOf organization_id document.id input.fields fields
  pub placed : All (OnPage (pos revision.page_count)) (map box_of fields)
  pub apart : input.overlap_policy ≡ FieldOverlapPolicy.prohibit → Apart (map box_of fields)
  pub assigned :
      All
        (λ signer. any (assigned_to signer) fields ≡ true)
        (signers_of_document organization_id document.id s.signers)
  pub stored : fields_of_document organization_id document.id t.fields ≡ fields
  pub shown : body.fields ≡ map to_public_signature_field fields
  pub prepared :
      body.state
      ≡ preparation_state (
          envelope_is_prepared document
            (signers_of_document organization_id document.id s.signers)
            fields)

store_fields-done :
    (rt : Runtime) (input : ReplaceFieldsInput) (organization_id : String) (document : Document)
    (signers : List Signer) (fields : List SignatureField) (now : ℕ) (s t : Repositories)
    (next : Document)
    → is_preparation_state document.state ≡ true
    → All (λ field. of_document organization_id document.id field ≡ true) fields
    → store_fields rt input organization_id document signers fields now s ≡ done next t
    → (next.state ≡ preparation_state (envelope_is_prepared document signers fields))
      × (fields_of_document organization_id document.id t.fields ≡ fields)
unfolding store_fields pure
store_fields-done rt input organization_id document signers fields now s t next free own h =
    let (replaced, rows, replaces, h1) = on_fields-done _ _ _ h in
    let (same, all) =
      replaced_fields organization_id document.id fields s.fields rows replaced own replaces in
    let (marked, u, marks, h2) = >>=-eq-done _ _ _ h1 in
    let (state, (documents, kept)) =
      maybe_mark_prepared-done document signers replaced (record s { fields = rows }) u marked free
        marks in
    let (event, v, appended, h3) = >>=-eq-done _ _ u h2 in
    let (events, grown) = append_event-done rt _ _ _ _ _ _ _ u v event appended in
    let answer : marked ≡ next = ground arith in
    let ends : v ≡ t = ground arith in
    let fields_kept : t.fields ≡ rows =
      ap (λ (w : Repositories). w.fields)
        (sym ends
          ∙ (grown
              ∙ ap
                  (λ (w : Repositories). record w {
                    ids_drawn = w.ids_drawn + 1;
                    audit_events = events;
                  })
                  kept)) in
    (
      sym (ap (λ (d : Document). d.state) answer)
          ∙ (state ∙ ap (λ f. preparation_state (envelope_is_prepared document signers f)) same),
      ap (fields_of_document organization_id document.id) fields_kept ∙ all,
    )

unlocked_state :
    (document : Document)
    → assert_preparation_unlocked document ≡ ok tt
    → is_preparation_state document.state ≡ true
unfolding assert_preparation_unlocked
unlocked_state document h = ground arith

-- A replacement of the fields that is answered was of an envelope that is not sent, and leaves exactly
-- one field for each row of the input, in its order: for the signer, of the type and at the place and
-- size that the row gives, on a page of the current revision, no two overlapping unless the policy
-- allows it, at least one for each signer. The answer shows these fields, and the state that it shows is
-- prepared exactly when the envelope is.
pub replace_document_fields-LaidOut :
    (rt : Runtime) (input : ReplaceFieldsInput) (s t : Repositories) (body : PublicDocument)
    → replace_document_fields rt input s ≡ done body t
    → LaidOut input s t body
unfolding replace_document_fields to_public_document
replace_document_fields-LaidOut rt input s t body h =
    let (organization_id, actor, h1) = lift-done _ _ h in
    let (_, allowed, h2) = lift-done _ _ h1 in
    let (document, found, h3) = require-done _ _ _ (gets-done _ _ h2) in
    let (_, open_still, h4) = lift-done _ _ h3 in
    let (revision, current, h5) = require-done _ _ _ (gets-done _ _ h4) in
    let signers = signers_of_document organization_id document.id s.signers in
    let (_, some_signer, h6) = lift-done _ _ (gets-done _ _ h5) in
    let (fields, u, made, h7) = >>=-eq-done _ _ _ (now_utc-done rt _ s h6) in
    let (_, layout, h8) = lift-done _ _ h7 in
    let (_, assigned, h9) = lift-done _ _ h8 in
    let (next, v, stores, h10) = >>=-eq-done _ _ u h9 in
    let free = unlocked_state document open_still in
    let own =
      to_fields-of_document rt input.fields organization_id document.id _ _ _ u fields made in
    let (state, all) =
      store_fields-done rt input organization_id document signers fields _ u v next free own
        stores in
    let (answer, ends) =
      pure_only (to_public_document next (some revision) signers fields) v t body h10 in
    let (there, back) =
      assert_field_layout_iff (map box_of fields) (pos revision.page_count) input.overlap_policy in
    let (paged, placed, apart) = there layout in
    record {
      organization_id = organization_id;
      document = document;
      document_found = found;
      unlocked = free;
      revision = revision;
      current = revision_of-IsCurrent document revision s.revisions current;
      fields = fields;
      as_given = to_fields-FieldsOf rt input.fields organization_id document.id _ _ _ u fields made;
      placed = placed;
      apart = apart;
      assigned = each_has_field signers fields assigned;
      stored =
          subst
            (λ (w : Repositories). fields_of_document organization_id document.id w.fields ≡ fields)
            ends all;
      shown = sym (ap (λ (b : PublicDocument). b.fields) answer);
      prepared = sym (ap (λ (b : PublicDocument). b.state) answer) ∙ state;
    }
