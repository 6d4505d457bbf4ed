-- ===== src/Examples/Signatures.antt =====
-- A signature on the example envelope, its image and the keys of stored objects.
use bug_free_fiesta.Store.Documents.{has_document_key, find_document}
use bug_free_fiesta.Store.Rows.{find_row}
use bug_free_fiesta.Store.Sessions.{find_by_token_hash}
use bug_free_fiesta.Signing.Session.{load_parties, check_expiry, load_signer_session}
use bug_free_fiesta.Domain.Text.{require_organization_id}
use bug_free_fiesta.Signing.Png.{validate_signature_png}
use bug_free_fiesta.Domain.ObjectKeys.{tenant_object_key}
use bug_free_fiesta.Program.{pure, now_utc, require, gets, ◌>>=◌, lift, Repositories, left}
use bug_free_fiesta.Prelude.{refl, [], ℕ, none, ◌∷◌, true, List, String, some, ◌≡◌}
use bug_free_fiesta.Examples.Parties.{lease, shop, runtime, tenant, tenant_session, no_account}
use bug_free_fiesta.Signing.Complete.{
  InkSupport, complete_signing, CompleteSigningInput, CompleteSigningResult,
}
use bug_free_fiesta.Signing.Png.Sizes.{validate_signature_png-FitsPng, FitsPng}
use bug_free_fiesta.Domain.Entities.{ConsentRecord, SignatureField}
use bug_free_fiesta.Domain.ObjectKeys.{assert_tenant_object_key}
use bug_free_fiesta.Domain.Statuses.{SignatureFieldType}
use bug_free_fiesta.Domain.Errors.{ok}
use bug_free_fiesta.Signing.Checks.{check_exchanged, check_status}
use bug_free_fiesta.Prelude.Int.{pos}
use bug_free_fiesta.Domain.ObjectKeys.Tenants.{tenant_object_key-belongs}

abbrev digest : String
digest = "0123456789abcdef0123456789abcdef0123456789abcdef0123456789abcdef"

tenant_object_key-belongs_example :
    assert_tenant_object_key "11111111-1111-4111-8111-111111111111"
      "org/11111111-1111-4111-8111-111111111111/artifacts/a"
    ≡ ok "org/11111111-1111-4111-8111-111111111111/artifacts/a"
unfolding require_organization_id ◌>>=◌ load_signer_session gets require find_by_token_hash find_row
    now_utc check_status check_expiry pure check_exchanged load_parties find_document
    has_document_key tenant_object_key validate_signature_png complete_signing lift
tenant_object_key-belongs_example =
    tenant_object_key-belongs "11111111-1111-4111-8111-111111111111" "/artifacts/a"
      "org/11111111-1111-4111-8111-111111111111/artifacts/a" refl

-- The head of an image of 300 by 100 pixels.
abbrev image : List ℕ
image =
    0x89 ∷ 0x50 ∷ 0x4E ∷ 0x47 ∷ 0x0D ∷ 0x0A ∷ 0x1A ∷ 0x0A ∷ 0 ∷ 0 ∷ 0 ∷ 13 ∷ 0x49 ∷ 0x48 ∷ 0x44
    ∷ 0x52 ∷ 0 ∷ 0 ∷ 1 ∷ 44 ∷ 0 ∷ 0 ∷ 0 ∷ 100 ∷ 8 ∷ []

validate_signature_png-FitsPng_example :
    FitsPng image 256000 (record { bytes = image; width = 300; height = 100 })
unfolding validate_signature_png complete_signing ◌>>=◌ lift load_signer_session gets require
    find_by_token_hash find_row now_utc check_status check_expiry pure check_exchanged load_parties
    find_document has_document_key
validate_signature_png-FitsPng_example =
    validate_signature_png-FitsPng image 256000
      (record { bytes = image; width = 300; height = 100 }) refl

abbrev lease_id : String
lease_id = "22222222-2222-4222-8222-222222222222"

abbrev tenant_id : String
tenant_id = "33333333-3333-4333-8333-333333333333"

abbrev session_id : String
session_id = "44444444-4444-4444-8444-444444444444"

abbrev revision_id : String
revision_id = "55555555-5555-4555-8555-555555555555"

abbrev date_field : SignatureField
date_field = record {
  id = "field";
  organization_id = "org";
  document_id = lease_id;
  signer_id = tenant_id;
  type = SignatureFieldType.date_signed;
  page_number = 1;
  x = pos 0;
  y = pos 0;
  width = pos 100;
  height = pos 100;
  required = true;
  completed_at = none;
  completion_object_key = none;
  completion_content_type = none;
  completion_size_bytes = none;
  completion_sha256_digest = none;
  flattened_revision_id = none;
  created_at = 0;
  updated_at = 0;
}

abbrev given_consent : ConsentRecord
given_consent = record {
  id = "consent";
  organization_id = "org";
  document_id = lease_id;
  signer_id = tenant_id;
  session_id = session_id;
  consent_copy_id = "v1";
  accepted_at = 5;
  request_id = none;
  untrusted_client_ip = none;
  untrusted_user_agent = none;
  created_at = 5;
}

abbrev ready : Repositories
ready = record shop {
  documents = record lease { id = lease_id; current_revision_id = some revision_id } ∷ [];
  signers = record tenant { id = tenant_id; document_id = lease_id } ∷ [];
  sessions =
      record tenant_session { id = session_id; document_id = lease_id; signer_id = tenant_id } ∷ [];
  fields = date_field ∷ [];
  consents = given_consent ∷ [];
}

abbrev support : InkSupport
support = record {
  put_object = λ organization_id key body. ok tt;
  sha256_hex = λ body. digest;
  from_base64 = λ text. none;
  text_of = λ json. "";
  max_png_bytes = 1000;
  idempotency_ttl_ms = 3600;
}

abbrev sign_input : CompleteSigningInput
sign_input = record {
  raw_token = "secret";
  consent_copy_id = "v1";
  intent_to_sign = true;
  field_ids = "field" ∷ [];
  signature = none;
  initials = none;
  idempotency_key = "key-0001";
  request_id = "request";
  account_user_id = none;
}

abbrev signed_result : CompleteSigningResult
signed_result = record { accepted = true; document_id = lease_id; signer_id = tenant_id }

abbrev after_signing : Repositories
after_signing = left (complete_signing runtime no_account support sign_input ready)
