-- ===== src/Domain/FieldGeometry.antt =====
-- packages/domain/src/field-geometry.ts: the layout of the fields on the pages. A coordinate is a
-- double, in units of 2 ^ -1074, and a sum is rounded (Domain.Doubles); a page number is an integer.
-- What `Number.isInteger` and `Number.isFinite` refuse is not a value of the types here.
pub mod Layout
use bug_free_fiesta.Prelude.{
  ◌^◌, ◌*◌, false, ◌||◌, [], any, ◌∷◌, not, ◌&&◌, if◌then◌else◌, Bool, List, String,
}
use bug_free_fiesta.Domain.Errors.{◌>>◌, throw_if, ok, validation_error, Result, ApplicationError}
use bug_free_fiesta.Domain.Statuses.{FieldOverlapPolicy}
use bug_free_fiesta.Prelude.Int.{ltb_ℤ, ◌+ℤ◌, leb_ℤ, pos, ℤ}
use bug_free_fiesta.Domain.Doubles.{add_double}

abbrev pub min_normalized : ℤ
min_normalized = pos 0

unfoldable pub max_normalized : ℤ
max_normalized = pos (2 ^ 1074)

-- The double next to 1e-9.
unfoldable pub epsilon : ℤ
epsilon = pos (4835703278458517 * 2 ^ 992)

pub record FieldBox : Type 0 where
  pub page_number : ℤ
  pub x : ℤ
  pub y : ℤ
  pub width : ℤ
  pub height : ℤ

abbrev pub refuse_box : String → String → ApplicationError
refuse_box field reason = validation_error (("field", field) ∷ ("reason", reason) ∷ [])

unfoldable pub assert_field_on_page : FieldBox → ℤ → Result (Unit {0})
assert_field_on_page field page_count = do
  throw_if (ltb_ℤ field.page_number (pos 1) || ltb_ℤ page_count field.page_number)
      (refuse_box "pageNumber" "out_of_bounds")
  throw_if (leb_ℤ field.width min_normalized || leb_ℤ field.height min_normalized)
      (refuse_box "size" "non_positive")
  throw_if (ltb_ℤ field.x min_normalized || ltb_ℤ field.y min_normalized)
      (refuse_box "origin" "out_of_bounds")
  throw_if
      (ltb_ℤ (add_double max_normalized epsilon) (add_double field.x field.width)
        || ltb_ℤ (add_double max_normalized epsilon) (add_double field.y field.height))
      (refuse_box "rectangle" "exceeds_page")

abbrev pub same_ℤ : ℤ → ℤ → Bool
same_ℤ a b = leb_ℤ a b && leb_ℤ b a

unfoldable pub fields_overlap : FieldBox → FieldBox → Bool
fields_overlap left right =
    if same_ℤ left.page_number right.page_number
    then not (
        leb_ℤ (add_double left.x left.width) (add_double right.x epsilon)
        || leb_ℤ (add_double right.x right.width) (add_double left.x epsilon)
        || leb_ℤ (add_double left.y left.height) (add_double right.y epsilon)
        || leb_ℤ (add_double right.y right.height) (add_double left.y epsilon))
    else false

-- `for (const field of input.fields) assertFieldOnPage(…)`
unfoldable pub assert_each_on_page : List FieldBox → ℤ → Result (Unit {0})
unfolding assert_field_on_page
assert_each_on_page [] page_count = ok tt
assert_each_on_page (field ∷ fields) page_count = do
  assert_field_on_page field page_count
  assert_each_on_page fields page_count

-- The two loops over the indices: each field, against those behind it.
unfoldable pub assert_none_overlap : List FieldBox → Result (Unit {0})
unfolding fields_overlap
assert_none_overlap [] = ok tt
assert_none_overlap (current ∷ others) = do
  throw_if (any (fields_overlap current) others) (refuse_box "fields" "overlap_prohibited")
  assert_none_overlap others

unfoldable pub assert_field_layout : List FieldBox → ℤ → FieldOverlapPolicy → Result (Unit {0})
unfolding assert_each_on_page assert_none_overlap
assert_field_layout fields page_count overlap_policy = do
  throw_if (ltb_ℤ page_count (pos 1)) (refuse_box "pageCount" "invalid")
  assert_each_on_page fields page_count
  elim overlap_policy [
    | FieldOverlapPolicy.prohibit ↦ assert_none_overlap fields
    | FieldOverlapPolicy.allow ↦ ok tt
  ]
