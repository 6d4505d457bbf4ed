-- ===== src/Signing/Png/Sizes.antt =====
-- The sizes of an accepted image.
use bug_free_fiesta.Prelude.{
  ◌&&◌, ◌||◌, ltb, ◌==◌, refl, true, ap, ◌∙◌, [], ◌∷◌, arith, subst, length, ◌≤◌, ◌≡◌, ℕ, List,
}
use bug_free_fiesta.Signing.Png.{
  byte_is, png_max_dimension, png_min_dimension, invalid_image, has_prefix, read_uint32, ok,
  ValidatedPng, assert_png_magic_bytes, read_png_dimensions, validate_signature_png,
}
use bug_free_fiesta.Domain.Errors.{guard, throw_if, ok_injective, >>=-eq-ok}

-- The image has the magic bytes, is no larger than allowed, and its sides are those that its header
-- says, within the bounds.
pub record FitsPng (body : List ℕ) (max_bytes : ℕ) (png : ValidatedPng) : Type 0 where
  pub kept : png.bytes ≡ body
  pub full : 24 ≤ length body
  pub small : length body ≤ max_bytes
  pub magic : has_prefix (0x89 ∷ 0x50 ∷ 0x4E ∷ 0x47 ∷ 0x0D ∷ 0x0A ∷ 0x1A ∷ 0x0A ∷ []) body ≡ true
  pub width_read : read_uint32 body 16 ≡ ok png.width
  pub height_read : read_uint32 body 20 ≡ ok png.height
  pub width_bounds : (8 ≤ png.width) × (png.width ≤ 2000)
  pub height_bounds : (8 ≤ png.height) × (png.height ≤ 2000)

read_dimensions_ok :
    (body : List ℕ) (size : ℕ × ℕ)
    → read_png_dimensions body ≡ ok size
    → (24 ≤ length body) × (read_uint32 body 16 ≡ ok size.0) × (read_uint32 body 20 ≡ ok size.1)
unfolding read_png_dimensions
read_dimensions_ok body size h =
    let (_, long, h1) =
      >>=-eq-ok (throw_if (ltb (length body) 24) (invalid_image "png_ihdr")) _ h in
    let (_, header, h2) =
      >>=-eq-ok
        (guard
          (byte_is body 12 b'I'
            && byte_is body 13 b'H'
            && byte_is body 14 b'D'
            && byte_is body 15 b'R')
          (invalid_image "png_ihdr"))
        _ h1 in
    let (width, wide, h3) = >>=-eq-ok (read_uint32 body 16) _ h2 in
    let (height, high, h4) = >>=-eq-ok (read_uint32 body 20) _ h3 in
    let same : (width, height) ≡ size = ground arith in
    (ground arith, wide ∙ ap (λ (x : ℕ × ℕ). ok x.0) same, high ∙ ap (λ (x : ℕ × ℕ). ok x.1) same)

-- An image is accepted only with the magic bytes and a whole header, of at most the allowed number of
-- bytes, with the sides that the header states, each from 8 to 2000 pixels.
pub validate_signature_png-FitsPng :
    (body : List ℕ) (max_bytes : ℕ) (png : ValidatedPng)
    → validate_signature_png body max_bytes ≡ ok png
    → FitsPng body max_bytes png
unfolding validate_signature_png assert_png_magic_bytes
validate_signature_png-FitsPng body max_bytes png h =
    let (_, sized, h1) =
      >>=-eq-ok
        (throw_if (length body == 0 || ltb max_bytes (length body)) (invalid_image "png_size")) _
        h in
    let (_, magic, h2) = >>=-eq-ok (assert_png_magic_bytes body) _ h1 in
    let (size, dimensions, h3) = >>=-eq-ok (read_png_dimensions body) _ h2 in
    let (_, bounded, h4) =
      >>=-eq-ok
        (throw_if
          (ltb size.0 png_min_dimension
            || ltb size.1 png_min_dimension
            || ltb png_max_dimension size.0
            || ltb png_max_dimension size.1)
          (invalid_image "png_dimensions"))
        _ h3 in
    let (full, width, height) = read_dimensions_ok body size dimensions in
    let same : record { bytes = body; width = size.0; height = size.1 } ≡ png = ok_injective h4 in
    subst (FitsPng body max_bytes) same (record {
      kept = refl;
      full = full;
      small = ground (arith, sized);
      magic = ground (arith, magic);
      width_read = width;
      height_read = height;
      width_bounds = (ground (arith, bounded), ground (arith, bounded));
      height_bounds = (ground (arith, bounded), ground (arith, bounded));
    })
