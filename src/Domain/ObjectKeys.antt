-- ===== src/Domain/ObjectKeys.antt =====
-- packages/domain/src/object-keys.ts: the keys of stored objects, each below the prefix of its tenant.
pub mod Tenants
use bug_free_fiesta.Prelude.{
  ◌||◌, all, any, ◌&&◌, ◌==◌, true, [], false, length, ◌∷◌, if◌then◌else◌, Bool, ℕ, List, String,
}
use bug_free_fiesta.Domain.Text.{in_range, require_organization_id, has_prefix, codes}
use Prim.Native.Char.{code}
use bug_free_fiesta.Domain.Errors.{
  err, throw_if, guard, ◌>>=◌, ◌>>◌, ok, Result, integrity_error, ApplicationError,
}

unfoldable pub append_text : String → String → String
append_text String.[] other = other
append_text (String.◌∷◌ c s) other = String.◌∷◌ c (append_text s other)

abbrev pub unsafe_segment : ApplicationError
unsafe_segment = integrity_error (("reason", "object_key_unsafe_segment") ∷ [])

unfoldable pub tenant_object_key_prefix : String → Result String
unfolding append_text
tenant_object_key_prefix organization_id = do
  id ← require_organization_id organization_id
  ok (append_text "org/" (append_text id "/"))

-- `key.endsWith('/') ? key.slice(0, -1) : key`
unfoldable pub without_last_slash : List ℕ → List ℕ
without_last_slash [] = []
without_last_slash (c ∷ []) = if c == b'/' then [] else c ∷ []
without_last_slash (c ∷ d ∷ rest) = c ∷ without_last_slash (d ∷ rest)

abbrev onto_first : ℕ → List (List ℕ) → List (List ℕ)
onto_first c [] = (c ∷ []) ∷ []
onto_first c (segment ∷ segments) = (c ∷ segment) ∷ segments

-- `forCheck.split('/')`
unfoldable pub split_segments : List ℕ → List (List ℕ)
split_segments [] = [] ∷ []
split_segments (c ∷ rest) =
    let segments = split_segments rest in if c == b'/' then [] ∷ segments else onto_first c segments

-- An empty segment, `.` or `..`
abbrev is_unsafe : List ℕ → Bool
is_unsafe [] = true
is_unsafe (c ∷ []) = c == b'.'
is_unsafe (c ∷ d ∷ []) = c == b'.' && d == b'.'
is_unsafe _ = false

abbrev starts_with_slash : List ℕ → Bool
starts_with_slash [] = false
starts_with_slash (c ∷ rest) = c == b'/'

abbrev is_empty : List ℕ → Bool
is_empty [] = true
is_empty (c ∷ rest) = false

unfoldable pub assert_safe_object_key_segments : String → Result String
unfolding without_last_slash split_segments
assert_safe_object_key_segments key = do
  throw_if (any (λ c. c == 92 || c == 0) (codes key)) unsafe_segment
  let for_check = without_last_slash (codes key)
  throw_if (is_empty for_check || starts_with_slash for_check) unsafe_segment
  throw_if (any is_unsafe (split_segments for_check)) unsafe_segment
  ok key

-- `relativeKey.replace(/^\/+/, '')`
unfoldable pub without_first_slashes : String → String
without_first_slashes String.[] = String.[]
without_first_slashes (String.◌∷◌ c s) =
    if code c == b'/' then without_first_slashes s else String.◌∷◌ c s

abbrev pub starts_with : String → String → Bool
starts_with prefix key = has_prefix (codes prefix) (codes key)

-- A key that names a tenant is that of the tenant, or refused; any other is put below its prefix.
unfoldable pub below_prefix : String → String → Result String
unfolding append_text assert_safe_object_key_segments has_prefix
below_prefix prefix trimmed =
    if starts_with "org/" trimmed
    then (if starts_with prefix trimmed
        then ok trimmed
        else err (integrity_error (("reason", "object_key_tenant_mismatch") ∷ [])))
    else assert_safe_object_key_segments (append_text prefix trimmed)

unfoldable pub tenant_object_key : String → String → Result String
unfolding tenant_object_key_prefix without_first_slashes below_prefix
tenant_object_key organization_id relative_key = do
  prefix ← tenant_object_key_prefix organization_id
  checked ← assert_safe_object_key_segments (without_first_slashes relative_key)
  below_prefix prefix (without_first_slashes relative_key)

unfoldable pub assert_tenant_object_key : String → String → Result String
unfolding tenant_object_key_prefix
assert_tenant_object_key organization_id key = do
  checked ← assert_safe_object_key_segments key
  prefix ← tenant_object_key_prefix organization_id
  guard (starts_with prefix key)
      (integrity_error (("reason", "object_key_not_tenant_prefixed") ∷ []))
  ok key

-- `SHA256_HEX.test(digest)`
abbrev is_sha256_hex : String → Bool
is_sha256_hex digest =
    length (codes digest) == 64
    && all (λ c. in_range b'0' b'9' c || in_range b'a' b'f' c) (codes digest)

-- `kind` is revisions, artifacts or signatures.
unfoldable pub digest_object_key : String → String → String → Result String
unfolding tenant_object_key
digest_object_key organization_id kind sha256_digest = do
  guard (is_sha256_hex sha256_digest) (integrity_error (("reason", "invalid_sha256_digest") ∷ []))
  tenant_object_key organization_id (append_text kind (append_text "/" sha256_digest))

unfoldable pub source_revision_object_key : String → String → Result String
unfolding digest_object_key
source_revision_object_key organization_id = digest_object_key organization_id "revisions"

unfoldable pub artifact_object_key : String → String → Result String
unfolding digest_object_key
artifact_object_key organization_id = digest_object_key organization_id "artifacts"

unfoldable pub signature_image_object_key : String → String → Result String
unfolding digest_object_key
signature_image_object_key organization_id = digest_object_key organization_id "signatures"
