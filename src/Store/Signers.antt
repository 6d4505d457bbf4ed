-- ===== src/Store/Signers.antt =====
-- `createMemorySignerStore`, `createMemorySignatureFieldStore` and `createMemoryConsentStore` of
-- packages/application/src/documents/memory-adapters.ts.
use bug_free_fiesta.Domain.Errors.{
  throw_if, guard, ◌>>◌, Result, ok, ApplicationError, conflict_error, not_found_error,
}
use bug_free_fiesta.Domain.Entities.{Signer, SignatureField, ConsentRecord}
use bug_free_fiesta.Store.Rows.{replace_row, find_row, update_row}
use bug_free_fiesta.Prelude.{
  is_none, not, ◌+◌, ◌++◌, any, ◌==◌, ltb, ◌&&◌, some, str_eq, [], if◌then◌else◌, Option, keep_if,
  String, List, Bool, ◌∷◌, ℕ,
}
use bug_free_fiesta.Domain.Statuses.{SignerStatus, signer_status_eq}
use bug_free_fiesta.Domain.SigningMode.{is_pending}

pub record SignerKey : Type 0 where
  pub organization_id : String
  pub signer_id : String

unfoldable pub has_signer_key : SignerKey → Signer → Bool
has_signer_key key row =
    str_eq row.organization_id key.organization_id && str_eq row.id key.signer_id

abbrev signer_missing : ApplicationError
signer_missing = not_found_error (("resource", "signer") ∷ [])

unfoldable pub find_signer : SignerKey → List Signer → Option Signer
find_signer key = find_row (has_signer_key key)

-- `sort` by routing order is stable: a row goes behind those of its own order.
insert_by_order : Signer → List Signer → List Signer
insert_by_order row [] = row ∷ []
insert_by_order row (other ∷ rows) =
    if ltb row.routing_order other.routing_order
    then row ∷ other ∷ rows
    else other ∷ insert_by_order row rows

sort_from : List Signer → List Signer → List Signer
unfolding insert_by_order
sort_from sorted [] = sorted
sort_from sorted (row ∷ rows) = sort_from (insert_by_order row sorted) rows

unfoldable pub signers_of_document : String → String → List Signer → List Signer
unfolding sort_from
signers_of_document organization_id document_id rows = sort_from [] (
    keep_if
      (λ row. str_eq row.organization_id organization_id && str_eq row.document_id document_id)
      rows)

unfoldable pub decline_row : ℕ → ℕ → Signer → Result Signer
decline_row expected_version declined_at current = do
  guard (current.version == expected_version && is_pending current)
      (conflict_error (("reason", "signer_version") ∷ []))
  ok (record current {
    status = SignerStatus.declined;
    version = current.version + 1;
    declined_at = some declined_at;
  })

unfoldable pub sign_row : ℕ → ℕ → Signer → Result Signer
sign_row expected_version completed_at current =
    if signer_status_eq current.status SignerStatus.signed then ok current else (do
      guard (current.version == expected_version && is_pending current)
          (conflict_error (("reason", "signer_version") ∷ []))
      ok (record current {
        status = SignerStatus.signed;
        version = current.version + 1;
        completed_at = some completed_at;
      }))

unfoldable pub update_signer :
    SignerKey → (Signer → Result Signer) → List Signer → Result (Signer × List Signer)
update_signer key = update_row (has_signer_key key) signer_missing

pub record FieldKey : Type 0 where
  pub organization_id : String
  pub field_id : String

unfoldable pub has_field_key : FieldKey → SignatureField → Bool
has_field_key key row = str_eq row.organization_id key.organization_id && str_eq row.id key.field_id

unfoldable pub fields_of_document : String → String → List SignatureField → List SignatureField
fields_of_document organization_id document_id =
    keep_if
      (λ row. str_eq row.organization_id organization_id && str_eq row.document_id document_id)

pub record FieldCompletion : Type 0 where
  pub completed_at : ℕ
  pub object_key : Option String
  pub content_type : Option String
  pub size_bytes : Option ℕ
  pub sha256_digest : Option String

unfoldable pub complete_field :
    FieldKey → FieldCompletion → List SignatureField → Result (SignatureField × List SignatureField)
complete_field key done =
    update_row (has_field_key key) (not_found_error (("resource", "signature_field") ∷ []))
      (λ current. ok (record current {
        completed_at = some done.completed_at;
        completion_object_key = done.object_key;
        completion_content_type = done.content_type;
        completion_size_bytes = done.size_bytes;
        completion_sha256_digest = done.sha256_digest;
      }))

unfoldable pub mark_flattened :
    FieldKey → String → List SignatureField → Result (SignatureField × List SignatureField)
mark_flattened key revision_id =
    update_row (has_field_key key) (not_found_error (("resource", "signature_field") ∷ []))
      (λ current. ok (record current { flattened_revision_id = some revision_id }))

unfoldable pub consent_of_session : String → String → List ConsentRecord → Option ConsentRecord
consent_of_session organization_id session_id =
    find_row (λ row. str_eq row.organization_id organization_id && str_eq row.session_id session_id)

unfoldable pub create_consent :
    String → ConsentRecord → List ConsentRecord → Result (ConsentRecord × List ConsentRecord)
create_consent organization_id consent rows = do
  throw_if
      (any
        (λ row.
          str_eq row.organization_id organization_id && str_eq row.session_id consent.session_id)
        rows)
      (conflict_error (("reason", "consent_exists") ∷ []))
  ok (consent, rows ++ consent ∷ [])

abbrev in_document : String → String → String → String → Bool
in_document organization_id document_id row_organization row_document =
    str_eq row_organization organization_id && str_eq row_document document_id

-- The rows of the document that are not among the new ones are removed, from the last to the first.
unfoldable pub remove_others : String → String → List Signer → List Signer → List Signer
remove_others organization_id document_id signers = keep_if (λ row. not (
    in_document organization_id document_id row.organization_id row.document_id
    && not (any (λ signer. str_eq signer.id row.id) signers)))

-- Each new row takes the place of the one with its id, or goes to the end.
unfoldable pub put_signers : String → List Signer → List Signer → List Signer
unfolding find_signer
put_signers organization_id [] rows = rows
put_signers organization_id (signer ∷ signers) rows =
    let key : SignerKey = record { organization_id = organization_id; signer_id = signer.id } in
    put_signers organization_id signers (
      if is_none (find_signer key rows)
      then rows ++ signer ∷ []
      else replace_row (has_signer_key key) signer rows)

unfoldable pub replace_all_signers :
    String → String → List Signer → List Signer → Result (List Signer × List Signer)
unfolding remove_others put_signers
replace_all_signers organization_id document_id signers rows = ok (
  signers,
  put_signers organization_id signers (remove_others organization_id document_id signers rows),
)

unfoldable pub replace_all_fields :
    String
    → String
    → List SignatureField
    → List SignatureField
    → Result (List SignatureField × List SignatureField)
replace_all_fields organization_id document_id fields rows = ok (
  fields,
  keep_if (λ row. not (in_document organization_id document_id row.organization_id row.document_id))
        rows
      ++ fields,
)
