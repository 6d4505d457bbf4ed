-- ===== src/Signing/Png.antt =====
-- packages/application/src/documents/png.ts: the image of a signature. A body is a list of bytes, each
-- below 256. `from_base64` stands for `Buffer.from(text, 'base64')`.
pub mod Sizes
use bug_free_fiesta.Prelude.{
  ◌^◌, ◌*◌, ◌%◌, ◌&&◌, zero, not, ◌+◌, ltb, length, suc, false, some, ◌||◌, ◌==◌, [], none, ◌∷◌,
  if◌then◌else◌, Option, Bool, String, List, ℕ,
}
use Prim.Native.Char.{code}
use bug_free_fiesta.Domain.Text.{codes, has_prefix, utf16_length}
use bug_free_fiesta.Domain.Errors.{
  ok, ◌>>=◌, throw_if, err, ◌>>◌, validation_error, guard, Result, ApplicationError,
}

abbrev png_magic : List ℕ
png_magic = 0x89 ∷ 0x50 ∷ 0x4E ∷ 0x47 ∷ 0x0D ∷ 0x0A ∷ 0x1A ∷ 0x0A ∷ []

abbrev pub png_min_dimension : ℕ
png_min_dimension = 8

abbrev pub png_max_dimension : ℕ
png_max_dimension = 2000

pub record ValidatedPng : Type 0 where
  pub bytes : List ℕ
  pub width : ℕ
  pub height : ℕ

-- `finalizationError('INVALID_SIGNATURE_IMAGE', { reason })`
abbrev pub invalid_image : String → ApplicationError
invalid_image reason =
    validation_error (("code", "INVALID_SIGNATURE_IMAGE") ∷ ("reason", reason) ∷ [])

abbrev is_blank : ℕ → Bool
is_blank c = c == 32 || c == 10 || c == 13 || c == 9

-- The text without its blanks.
unfoldable pub without_blanks : String → String
without_blanks String.[] = String.[]
without_blanks (String.◌∷◌ c s) =
    if is_blank (code c) then without_blanks s else String.◌∷◌ c (without_blanks s)

unfoldable pub decode_png_base64 : (String → Option (List ℕ)) → String → Result (List ℕ)
unfolding without_blanks utf16_length
decode_png_base64 from_base64 value = do
  let normalized = without_blanks value
  throw_if (utf16_length (codes normalized) == 0 || not (utf16_length (codes normalized) % 4 == 0))
      (invalid_image "png_base64")
  elim (from_base64 normalized) [ none ↦ err (invalid_image "png_base64") | some body ↦ ok body ]

unfoldable pub assert_png_magic_bytes : List ℕ → Result (Unit {0})
unfolding has_prefix
assert_png_magic_bytes body = guard (has_prefix png_magic body) (invalid_image "png_magic")

-- `body[index]`
unfoldable pub byte_at : List ℕ → ℕ → Option ℕ
byte_at [] index = none
byte_at (b ∷ bs) zero = some b
byte_at (b ∷ bs) (suc index) = byte_at bs index

-- The four bytes from an offset, as a number of 32 bits without sign.
unfoldable pub read_uint32 : List ℕ → ℕ → Result ℕ
unfolding byte_at
read_uint32 body offset = elim (byte_at body offset) [
  | none ↦ err (invalid_image "png_ihdr")
  | some b0 ↦ elim (byte_at body (offset + 1)) [
    | none ↦ err (invalid_image "png_ihdr")
    | some b1 ↦ elim (byte_at body (offset + 2)) [
      | none ↦ err (invalid_image "png_ihdr")
      | some b2 ↦ elim (byte_at body (offset + 3)) [
        | none ↦ err (invalid_image "png_ihdr")
        | some b3 ↦ ok ((b0 * 2 ^ 24 + b1 * 2 ^ 16 + b2 * 2 ^ 8 + b3) % 2 ^ 32)
      ]
    ]
  ]
]

abbrev pub byte_is : List ℕ → ℕ → ℕ → Bool
byte_is body index expected = elim (byte_at body index) [ none ↦ false | some b ↦ b == expected ]

unfoldable pub read_png_dimensions : List ℕ → Result (ℕ × ℕ)
unfolding read_uint32
read_png_dimensions body = do
  throw_if (ltb (length body) 24) (invalid_image "png_ihdr")
  guard
      (byte_is body 12 b'I' && byte_is body 13 b'H' && byte_is body 14 b'D' && byte_is body 15 b'R')
      (invalid_image "png_ihdr")
  width ← read_uint32 body 16
  height ← read_uint32 body 20
  ok (width, height)

unfoldable pub validate_signature_png : List ℕ → ℕ → Result ValidatedPng
unfolding assert_png_magic_bytes read_png_dimensions
validate_signature_png body max_bytes = do
  throw_if (length body == 0 || ltb max_bytes (length body)) (invalid_image "png_size")
  assert_png_magic_bytes body
  size ← read_png_dimensions body
  throw_if
      (ltb size.0 png_min_dimension
        || ltb size.1 png_min_dimension
        || ltb png_max_dimension size.0
        || ltb png_max_dimension size.1)
      (invalid_image "png_dimensions")
  ok (record { bytes = body; width = size.0; height = size.1 })
