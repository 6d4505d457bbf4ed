-- ===== src/Domain/Text.antt =====
-- The tests on texts that the rules use: packages/domain/src/organization-context.ts, and the string
-- methods and regular expressions of packages/domain/src/jobs/payload.ts and audit/payload.ts. A text
-- is walked as the list of its code points.
use Prim.Native.Char.{code}
use bug_free_fiesta.Prelude.{
  all, refl, ◌+◌, ◌&&◌, ◌||◌, leb, ◌≡◌, ◌==◌, if◌then◌else◌, ℕ, zero, suc, String, Bool, true,
  false, List, [], ◌∷◌,
}
use bug_free_fiesta.Domain.Errors.{ok, guard, throw_if, ◌>>◌, validation_error, err, Result}

abbrev pub codes : String → List ℕ
codes String.[] = []
codes (String.◌∷◌ c s) = code c ∷ codes s

abbrev pub in_range : ℕ → ℕ → ℕ → Bool
in_range lo hi c = leb lo c && leb c hi

-- `toLowerCase()` on the letters of ASCII
abbrev pub to_lower : ℕ → ℕ
to_lower c = if in_range b'A' b'Z' c then c + 32 else c

abbrev pub is_alphanumeric : ℕ → Bool
is_alphanumeric c = in_range b'0' b'9' c || in_range b'A' b'Z' c || in_range b'a' b'z' c

unfoldable pub has_prefix : List ℕ → List ℕ → Bool
has_prefix [] text = true
has_prefix (p ∷ ps) [] = false
has_prefix (p ∷ ps) (c ∷ text) = p == c && has_prefix ps text

-- `text.includes(part)`
unfoldable pub has_part : List ℕ → List ℕ → Bool
unfolding has_prefix
has_part part [] = has_prefix part []
has_part part (c ∷ text) = has_prefix part (c ∷ text) || has_part part text

unfoldable pub same_text : List ℕ → List ℕ → Bool
same_text [] [] = true
same_text [] (c ∷ text) = false
same_text (c ∷ text) [] = false
same_text (c ∷ text) (d ∷ other) = c == d && same_text text other

-- `value.length`, in code units of UTF-16
unfoldable pub utf16_length : List ℕ → ℕ
utf16_length [] = 0
utf16_length (c ∷ text) = (if leb 0x10000 c then 2 else 1) + utf16_length text

-- The characters that `trim()` removes.
unfoldable pub is_space : ℕ → Bool
is_space c =
    in_range 9 13 c
    || c == 32
    || c == 160
    || c == 0x1680
    || in_range 0x2000 0x200A c
    || in_range 0x2028 0x2029 c
    || c == 0x202F
    || c == 0x205F
    || c == 0x3000
    || c == 0xFEFF

abbrev pub is_hex : ℕ → Bool
is_hex c = in_range b'0' b'9' c || in_range b'a' b'f' (to_lower c)

abbrev repeat : ℕ → (ℕ → Bool) → List (ℕ → Bool) → List (ℕ → Bool)
repeat zero test rest = rest
repeat (suc n) test rest = test ∷ repeat n test rest

abbrev is_dash : ℕ → Bool
is_dash c = c == b'-'

abbrev is_version : ℕ → Bool
is_version c = in_range b'1' b'8' c

abbrev is_variant : ℕ → Bool
is_variant c = c == b'8' || c == b'9' || to_lower c == b'a' || to_lower c == b'b'

-- `OPAQUE_ID_PATTERN`, a test for each character
abbrev opaque_id_pattern : List (ℕ → Bool)
opaque_id_pattern = repeat 8 is_hex (
    is_dash
    ∷ repeat 4 is_hex (
        is_dash
        ∷ is_version
        ∷ repeat 3 is_hex (is_dash ∷ is_variant ∷ repeat 3 is_hex (is_dash ∷ repeat 12 is_hex []))))

unfoldable pub matches : List (ℕ → Bool) → List ℕ → Bool
matches [] [] = true
matches [] (c ∷ text) = false
matches (test ∷ tests) [] = false
matches (test ∷ tests) (c ∷ text) = test c && matches tests text

unfoldable pub is_opaque_id : String → Bool
unfolding matches
is_opaque_id value = matches opaque_id_pattern (codes value)

unfoldable pub require_opaque_id : String → String → Result String
unfolding is_opaque_id is_space
require_opaque_id value field = do
  throw_if (all is_space (codes value))
      (validation_error (("field", field) ∷ ("reason", "missing") ∷ []))
  guard (is_opaque_id value) (validation_error (("field", field) ∷ ("reason", "invalid") ∷ []))
  ok value

unfoldable pub require_organization_id : String → Result String
unfolding require_opaque_id
require_organization_id organization_id = require_opaque_id organization_id "organizationId"

is_opaque_id_test :
    (is_opaque_id "11111111-1111-4111-8111-11111111111F" ≡ true)
    × (is_opaque_id "11111111-1111-4111-8111-1111111111111" ≡ false)
    × (require_organization_id " "
        ≡ err (validation_error (("field", "organizationId") ∷ ("reason", "missing") ∷ [])))
unfolding require_organization_id
is_opaque_id_test = (refl, refl, refl)
