-- ===== src/Envelope/Prepare/Given.antt =====
-- The fields that replaceDocumentFields makes of the given rows, and the revision that it lays them on.
use bug_free_fiesta.Envelope.Prepare.{
  ◌∷◌, none, some, Result, true, revision_of, pure, ok, false, ℕ, to_field, str_eq, List, Bool,
  SignatureField, to_fields, Document, SignatureFieldType, to_field_type, Option, Runtime, String,
  FieldRow,
}
use bug_free_fiesta.Store.Documents.{find_revision}
use bug_free_fiesta.Domain.Entities.{DocumentRevision}
use bug_free_fiesta.Prelude.{
  [], eq_iff, ◌∙◌, eq_refl, subst, ◌&&◌, All, refl, inr, sym, arith, Option-cases, inl, ap, ◌↔◌,
  Bool-cases, Memᴰ, ◌≡◌,
}
use bug_free_fiesta.Program.{>>=-eq-done, done, Repositories, pure}
use bug_free_fiesta.Program.Done.{next_id-done, lift-done, pure_only}
use bug_free_fiesta.Envelope.Prepare.Prepared.{of_document}
use bug_free_fiesta.Domain.Errors.{ok_injective}
use bug_free_fiesta.Store.Rows.{find_row-mem, find_row-holds}

-- The source's names of the field types.
abbrev pub type_name : SignatureFieldType → String
type_name SignatureFieldType.signature = "signature"
type_name SignatureFieldType.initials = "initials"
type_name SignatureFieldType.date_signed = "date_signed"
type_name SignatureFieldType.signer_name = "signer_name"

-- The field stands where its row says, for the signer and of the type that it says, and is required
-- unless it says otherwise; it is not completed.
pub record FieldOf (organization_id document_id : String) (row : FieldRow) (field : SignatureField)
    : Type 0 where
  pub organization : field.organization_id ≡ organization_id
  pub document : field.document_id ≡ document_id
  pub signer : field.signer_id ≡ row.signer_id
  pub type : type_name field.type ≡ row.type
  pub page : field.page_number ≡ row.page_number
  pub place : (field.x ≡ row.x) × (field.y ≡ row.y)
  pub size : (field.width ≡ row.width) × (field.height ≡ row.height)
  pub optional : (field.required ≡ false) ↔ (row.required ≡ some false)
  pub incomplete : field.completed_at ≡ none

-- One field for each row, in the order of the rows.
abbrev pub FieldsOf : String → String → List FieldRow → List SignatureField → Type 0
FieldsOf organization_id document_id [] [] = Unit {0}
FieldsOf organization_id document_id [] (field ∷ fields) = ⊥
FieldsOf organization_id document_id (row ∷ rows) [] = ⊥
FieldsOf organization_id document_id (row ∷ rows) (field ∷ fields) =
    FieldOf organization_id document_id row field × FieldsOf organization_id document_id rows fields

name_read :
    (text name : String) (known type : SignatureFieldType)
    → str_eq text name ≡ true
    → type_name known ≡ name
    → Path (Result SignatureFieldType) (ok known) (ok type)
    → type_name type ≡ text
name_read text name known type same is_name h =
    ap type_name (sym (ok_injective h)) ∙ (is_name ∙ sym ((eq_iff text name).0 same))

type_name_of :
    (text : String) (type : SignatureFieldType)
    → to_field_type text ≡ ok type
    → type_name type ≡ text
unfolding to_field_type
type_name_of text type h = elim (Bool-cases (str_eq text "signature")) [
  | inl a ↦
      name_read text "signature" SignatureFieldType.signature type a refl
        (rw (to_field_type, a) at h)
  | inr a ↦ elim (Bool-cases (str_eq text "initials")) [
    | inl b ↦
        name_read text "initials" SignatureFieldType.initials type b refl
          (rw (to_field_type, a, b) at h)
    | inr b ↦ elim (Bool-cases (str_eq text "date_signed")) [
      | inl c ↦
          name_read text "date_signed" SignatureFieldType.date_signed type c refl
            (rw (to_field_type, a, b, c) at h)
      | inr c ↦ elim (Bool-cases (str_eq text "signer_name")) [
        | inl d ↦
            name_read text "signer_name" SignatureFieldType.signer_name type d refl
              (rw (to_field_type, a, b, c, d) at h)
        | inr d ↦ absurd (ground arith)
      ]
    ]
  ]
]

optional_iff :
    (required : Option Bool)
    → (elim required [ none ↦ true | some given ↦ given ] ≡ false) ↔ (required ≡ some false)
optional_iff none = (λ h. cc, λ h. cc)
optional_iff (some true) = (λ h. cc, λ h. cc)
optional_iff (some false) = (λ h. refl, λ h. refl)

module _ (rt : Runtime) where
  to_field-FieldOf :
      (row : FieldRow) (organization_id document_id : String) (ids : List String) (now : ℕ)
      (s t : Repositories) (field : SignatureField)
      → to_field rt row organization_id document_id ids now s ≡ done field t
      → FieldOf organization_id document_id row field
  unfolding to_field
  to_field-FieldOf row organization_id document_id ids now s t field h =
      let (_, known, h1) = lift-done _ _ h in
      let (type, typed, h2) = lift-done _ _ h1 in
      let (made, same) = pure_only _ _ t field (next_id-done rt _ s h2) in
      subst (FieldOf organization_id document_id row) made (record {
        organization = refl;
        document = refl;
        signer = refl;
        type = type_name_of row.type type typed;
        page = refl;
        place = (refl, refl);
        size = (refl, refl);
        optional = optional_iff row.required;
        incomplete = refl;
      })

  pub to_fields-FieldsOf :
      (rows : List FieldRow) (organization_id document_id : String) (ids : List String) (now : ℕ)
      (s t : Repositories) (fields : List SignatureField)
      → to_fields rt rows organization_id document_id ids now s ≡ done fields t
      → FieldsOf organization_id document_id rows fields
  unfolding to_fields
  to_fields-FieldsOf [] organization_id document_id ids now s t fields h =
      let (made, same) = pure_only [] s t fields h in
      subst (FieldsOf organization_id document_id []) made tt
  to_fields-FieldsOf (row ∷ rows) organization_id document_id ids now s t fields h =
      let (field, u, one, h1) = >>=-eq-done _ _ s h in
      let (rest, v, others, h2) = >>=-eq-done _ _ u h1 in
      let (made, same) = pure_only (field ∷ rest) v t fields h2 in
      subst (FieldsOf organization_id document_id (row ∷ rows)) made (
        to_field-FieldOf row organization_id document_id ids now s u field one,
        to_fields-FieldsOf rows organization_id document_id ids now u v rest others,
      )

  to_field-of_document :
      (row : FieldRow) (organization_id document_id : String) (ids : List String) (now : ℕ)
      (s t : Repositories) (field : SignatureField)
      → to_field rt row organization_id document_id ids now s ≡ done field t
      → of_document organization_id document_id field ≡ true
  unfolding to_field pure
  to_field-of_document row organization_id document_id ids now s t field h =
      let (_, known, h1) = lift-done _ _ h in
      let (type, typed, h2) = lift-done _ _ h1 in
      let h3 = next_id-done rt _ s h2 in
      ground (arith, eq_refl organization_id, eq_refl document_id)

  pub to_fields-of_document :
      (rows : List FieldRow) (organization_id document_id : String) (ids : List String) (now : ℕ)
      (s t : Repositories) (fields : List SignatureField)
      → to_fields rt rows organization_id document_id ids now s ≡ done fields t
      → All (λ field. of_document organization_id document_id field ≡ true) fields
  unfolding to_fields pure
  to_fields-of_document [] organization_id document_id ids now s t fields h =
      let none_there : [] ≡ fields = ground arith in
      subst (All (λ field. of_document organization_id document_id field ≡ true)) none_there tt
  to_fields-of_document (row ∷ rows) organization_id document_id ids now s t fields h =
      let (field, u, made, h1) = >>=-eq-done _ _ s h in
      let (rest, v, others, h2) = >>=-eq-done _ _ u h1 in
      let listed : field ∷ rest ≡ fields = ground arith in
      subst (All (λ field. of_document organization_id document_id field ≡ true)) listed (
        to_field-of_document row organization_id document_id ids now s u field made,
        to_fields-of_document rows organization_id document_id ids now u v rest others,
      )

-- The row is the current revision of the document.
pub record IsCurrent (document : Document) (rows : List DocumentRevision)
    (revision : DocumentRevision) : Type 0 where
  pub listed : Memᴰ revision rows
  pub id : document.current_revision_id ≡ some revision.id
  pub organization : revision.organization_id ≡ document.organization_id

pub revision_of-IsCurrent :
    (document : Document) (revision : DocumentRevision) (rows : List DocumentRevision)
    → revision_of document.organization_id document.current_revision_id rows ≡ some revision
    → IsCurrent document rows revision
unfolding find_revision
revision_of-IsCurrent document revision rows h = elim (Option-cases document.current_revision_id) [
  | inl missing ↦ absurd (ground arith)
  | inr (id, given) ↦
      let found = rw (given) at h in
      let p : DocumentRevision → Bool =
        λ row. str_eq row.organization_id document.organization_id && str_eq row.id id in
      let held = find_row-holds p rows revision found in
      record {
        listed = find_row-mem p rows revision found;
        id = given ∙ ap some (sym ((eq_iff revision.id id).0 (ground arith)));
        organization = (eq_iff revision.organization_id document.organization_id).0 (ground arith);
      }
]
