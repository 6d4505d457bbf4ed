-- ===== src/Domain/Payload.antt =====
-- What may go into a payload: packages/domain/src/jobs/payload.ts and
-- packages/domain/src/audit/payload.ts.
pub mod Approved
use bug_free_fiesta.Prelude.{
  ◌||◌, suc, ℕ, ◌+◌, String, Bool, true, false, List, [], ◌∷◌, any, keep_if, map, length, ltb,
}
use bug_free_fiesta.Domain.Json.{
  Json, null, undefined, boolean, number, non_finite_number, string, date, invalid_date, binary,
  array, object, unsupported, Elems, nil, elem, Props, end, prop, entries,
}
use bug_free_fiesta.Domain.Errors.{
  err, guard, ok, ◌>>◌, validation_error, throw_if, ApplicationError, Result,
}
use bug_free_fiesta.Domain.Text.{
  is_alphanumeric, codes, is_opaque_id, to_lower, utf16_length, same_text, has_part,
}

abbrev pub reject : String → ApplicationError
reject reason = validation_error (("reason", reason) ∷ [])

abbrev refuse_key : String → String → ApplicationError
refuse_key key reason = validation_error (("field", key) ∷ ("reason", reason) ∷ [])

-- The alternatives of `FORBIDDEN_PAYLOAD_KEY_PATTERN`
abbrev forbidden_job_parts : List String
forbidden_job_parts =
    "token" ∷ "secret" ∷ "password" ∷ "signature" ∷ "pdf" ∷ "png" ∷ "bytes" ∷ "cookie"
    ∷ "authorization" ∷ "raw" ∷ "image" ∷ "ink" ∷ []

unfoldable pub is_forbidden_job_key : String → Bool
unfolding has_part
is_forbidden_job_key key =
    any (λ part. has_part (codes part) (map to_lower (codes key))) forbidden_job_parts

abbrev pub is_opaque_value : Json → Bool
is_opaque_value (string value) = is_opaque_id value
is_opaque_value _ = false

-- The loop over `Object.keys(payload)`
unfoldable pub check_job_entries : List (String × Json) → Result (Unit {0})
check_job_entries [] = ok tt
check_job_entries ((key, value) ∷ rest) = do
  throw_if (is_forbidden_job_key key) (refuse_key key "forbidden_job_payload_key")
  guard (is_opaque_value value) (refuse_key key "job_payload_must_be_opaque_id")
  check_job_entries rest

unfoldable pub assert_safe_job_payload : Props → Result (Unit {0})
unfolding check_job_entries
assert_safe_job_payload payload = do
  throw_if (ltb 16 (length (entries payload))) (reject "job_payload_too_large")
  check_job_entries (entries payload)

abbrev forbidden_substrings : List String
forbidden_substrings =
    "token" ∷ "secret" ∷ "password" ∷ "cookie" ∷ "authorization" ∷ "bearer" ∷ "apikey" ∷ "csrftoken"
    ∷ "sessiontoken" ∷ "signatureimage" ∷ "signaturebytes" ∷ "pngbytes" ∷ "pdfbytes"
    ∷ "documentbytes" ∷ "pointerstream" ∷ "rawsignature" ∷ []

abbrev forbidden_exact : List String
forbidden_exact =
    "email" ∷ "name" ∷ "phone" ∷ "address" ∷ "ssn" ∷ "png" ∷ "pdf" ∷ "pointer" ∷ "strokes" ∷ "ink"
    ∷ "raw" ∷ []

unfoldable pub normalize_key : String → List ℕ
normalize_key key = map to_lower (keep_if is_alphanumeric (codes key))

unfoldable pub is_forbidden_key : String → Bool
unfolding normalize_key same_text has_part
is_forbidden_key key =
    let normalized = normalize_key key in
    any (λ word. same_text (codes word) normalized) forbidden_exact
    || any (λ part. has_part (codes part) normalized) forbidden_substrings

abbrev max_depth : ℕ
max_depth = 8

abbrev max_keys : ℕ
max_keys = 64

abbrev max_string_chars : ℕ
max_string_chars = 4096

abbrev count_elems : Elems → ℕ
count_elems nil = 0
count_elems (elem value rest) = suc (count_elems rest)

-- `object` is the call of `assertApprovedAuditPayload`, whose loop is `check_props`.
unfoldable mutual
  pub assert_approved_value : Json → ℕ → Result (Unit {0})
  assert_approved_value null depth =
      throw_if (ltb max_depth depth) (reject "audit_payload_too_deep")
  assert_approved_value (boolean b) depth =
      throw_if (ltb max_depth depth) (reject "audit_payload_too_deep")
  assert_approved_value (number n) depth =
      throw_if (ltb max_depth depth) (reject "audit_payload_too_deep")
  assert_approved_value non_finite_number depth = do
    throw_if (ltb max_depth depth) (reject "audit_payload_too_deep")
    err (reject "non_finite_json_number")
  assert_approved_value (string value) depth = do
    throw_if (ltb max_depth depth) (reject "audit_payload_too_deep")
    throw_if (ltb max_string_chars (utf16_length (codes value)))
        (reject "audit_payload_string_too_long")
  assert_approved_value (date t) depth =
      throw_if (ltb max_depth depth) (reject "audit_payload_too_deep")
  assert_approved_value invalid_date depth =
      throw_if (ltb max_depth depth) (reject "audit_payload_too_deep")
  assert_approved_value binary depth = do
    throw_if (ltb max_depth depth) (reject "audit_payload_too_deep")
    err (reject "binary_audit_payload")
  assert_approved_value (array values) depth = do
    throw_if (ltb max_depth depth) (reject "audit_payload_too_deep")
    throw_if (ltb max_keys (count_elems values)) (reject "audit_payload_too_large")
    check_elems values (depth + 1)
  assert_approved_value (object payload) depth = do
    throw_if (ltb max_depth depth) (reject "audit_payload_too_deep")
    throw_if (ltb max_depth (depth + 1)) (reject "audit_payload_too_deep")
    throw_if (ltb max_keys (length (entries payload))) (reject "audit_payload_too_large")
    check_props payload (depth + 1 + 1)
  assert_approved_value undefined depth = do
    throw_if (ltb max_depth depth) (reject "audit_payload_too_deep")
    err (reject "unsupported_json_type")
  assert_approved_value unsupported depth = do
    throw_if (ltb max_depth depth) (reject "audit_payload_too_deep")
    err (reject "unsupported_json_type")

  pub check_elems : Elems → ℕ → Result (Unit {0})
  check_elems nil depth = ok tt
  check_elems (elem value rest) depth = do assert_approved_value value depth; check_elems rest depth

  -- A nested value that is undefined is skipped.
  pub check_props : Props → ℕ → Result (Unit {0})
  check_props end depth = ok tt
  check_props (prop key undefined rest) depth = do
    throw_if (is_forbidden_key key) (refuse_key key "forbidden_audit_payload_key")
    check_props rest depth
  check_props (prop key value rest) depth = do
    throw_if (is_forbidden_key key) (refuse_key key "forbidden_audit_payload_key")
    assert_approved_value value depth
    check_props rest depth

-- `assertApprovedAuditPayload(payload)`, whose depth is 0
unfoldable pub assert_approved_audit_payload : Props → Result (Unit {0})
unfolding check_props
assert_approved_audit_payload payload = do
  throw_if (ltb max_keys (length (entries payload))) (reject "audit_payload_too_large")
  check_props payload 1
