-- ===== src/Domain/FieldGeometry/Layout.antt =====
-- Which layouts are accepted.
use bug_free_fiesta.Prelude.{
  ◌||◌, inr, inl, ◌≢◌, if◌then◌else◌, Bool-cases, refl, [], All, ◌↔◌, arith, true, ◌≡◌,
}
use bug_free_fiesta.Domain.Errors.{throw_if, >>=-eq-ok}
use bug_free_fiesta.Domain.Statuses.{FieldOverlapPolicy}
use bug_free_fiesta.Domain.FieldGeometry.{
  max_normalized, epsilon, add_double, not, Bool, same_ℤ, ltb_ℤ, false, ◌∷◌, any, List,
  assert_each_on_page, assert_field_layout, fields_overlap, assert_none_overlap, ok, pos, leb_ℤ,
  assert_field_on_page, FieldBox,
}
use bug_free_fiesta.Prelude.Int.{◌≤ℤ◌, ℤ}

-- A rectangle that is not empty, on one of the pages, and inside it up to `epsilon`.
pub record OnPage (page_count : ℤ) (box : FieldBox) : Type 0 where
  pub first : pos 1 ≤ℤ box.page_number
  pub last : box.page_number ≤ℤ page_count
  pub wide : pos 1 ≤ℤ box.width
  pub high : pos 1 ≤ℤ box.height
  pub left : pos 0 ≤ℤ box.x
  pub bottom : pos 0 ≤ℤ box.y
  pub right : add_double box.x box.width ≤ℤ add_double max_normalized epsilon
  pub top : add_double box.y box.height ≤ℤ add_double max_normalized epsilon

-- The two share more of a page than an edge of `epsilon`.
pub record Overlapping (a b : FieldBox) : Type 0 where
  pub page : (a.page_number ≤ℤ b.page_number) × (b.page_number ≤ℤ a.page_number)
  pub from_left : ¬ (add_double a.x a.width ≤ℤ add_double b.x epsilon)
  pub from_right : ¬ (add_double b.x b.width ≤ℤ add_double a.x epsilon)
  pub from_below : ¬ (add_double a.y a.height ≤ℤ add_double b.y epsilon)
  pub from_above : ¬ (add_double b.y b.height ≤ℤ add_double a.y epsilon)

assert_field_on_page-ok :
    (box : FieldBox) (page_count : ℤ)
    → assert_field_on_page box page_count ≡ ok tt
    → OnPage page_count box
unfolding assert_field_on_page
assert_field_on_page-ok box page_count h = record {
  first = ground arith;
  last = ground arith;
  wide = ground arith;
  high = ground arith;
  left = ground arith;
  bottom = ground arith;
  right = ground arith;
  top = ground arith;
}

OnPage-ok :
    (box : FieldBox) (page_count : ℤ)
    → OnPage page_count box
    → assert_field_on_page box page_count ≡ ok tt
unfolding assert_field_on_page
OnPage-ok box page_count h =
    ground (arith, h.first, h.last, h.wide, h.high, h.left, h.bottom, h.right, h.top)

leb_ℤ_iff : (a b : ℤ) → (leb_ℤ a b ≡ true) ↔ (a ≤ℤ b)
leb_ℤ_iff a b = ground arith

none_of_four :
    (a b c d e : Bool)
    → (if e then not (a || b || c || d) else false) ≡ true
    → (e ≡ true) × (a ≢ true) × (b ≢ true) × (c ≢ true) × (d ≢ true)
none_of_four a b c d e h = ground arith

four_of_none :
    (a b c d e : Bool)
    → e ≡ true
    → a ≢ true
    → b ≢ true
    → c ≢ true
    → d ≢ true
    → (if e then not (a || b || c || d) else false) ≡ true
four_of_none a b c d e h ha hb hc hd = ground arith

both_iff : (a b : ℤ) → (same_ℤ a b ≡ true) ↔ ((a ≤ℤ b) × (b ≤ℤ a))
both_iff a b = ground arith

-- The edges of the two boxes that `fieldsOverlap` compares.
abbrev test_of : FieldBox → FieldBox → Bool × Bool × Bool × Bool × Bool
test_of a b = (
  same_ℤ a.page_number b.page_number,
  leb_ℤ (add_double a.x a.width) (add_double b.x epsilon),
  leb_ℤ (add_double b.x b.width) (add_double a.x epsilon),
  leb_ℤ (add_double a.y a.height) (add_double b.y epsilon),
  leb_ℤ (add_double b.y b.height) (add_double a.y epsilon),
)

not_leb : (a b : ℤ) → leb_ℤ a b ≢ true → ¬ (a ≤ℤ b)
not_leb a b h o = h ((leb_ℤ_iff a b).1 o)

not_leb_of : (a b : ℤ) → ¬ (a ≤ℤ b) → leb_ℤ a b ≢ true
not_leb_of a b h o = h ((leb_ℤ_iff a b).0 o)

fields_overlap-Overlapping : (a b : FieldBox) → fields_overlap a b ≡ true → Overlapping a b
unfolding fields_overlap
fields_overlap-Overlapping a b h =
    let (e, l, r, d, u) = test_of a b in
    let (page, from_left, from_right, from_below, from_above) = none_of_four l r d u e h in
    record {
      page = (both_iff a.page_number b.page_number).0 page;
      from_left = not_leb (add_double a.x a.width) (add_double b.x epsilon) from_left;
      from_right = not_leb (add_double b.x b.width) (add_double a.x epsilon) from_right;
      from_below = not_leb (add_double a.y a.height) (add_double b.y epsilon) from_below;
      from_above = not_leb (add_double b.y b.height) (add_double a.y epsilon) from_above;
    }

Overlapping-fields_overlap : (a b : FieldBox) → Overlapping a b → fields_overlap a b ≡ true
unfolding fields_overlap
Overlapping-fields_overlap a b h =
    let (e, l, r, d, u) = test_of a b in
    four_of_none l r d u e ((both_iff a.page_number b.page_number).1 h.page)
      (not_leb_of (add_double a.x a.width) (add_double b.x epsilon) h.from_left)
      (not_leb_of (add_double b.x b.width) (add_double a.x epsilon) h.from_right)
      (not_leb_of (add_double a.y a.height) (add_double b.y epsilon) h.from_below)
      (not_leb_of (add_double b.y b.height) (add_double a.y epsilon) h.from_above)

Overlapping-sym : (a b : FieldBox) → Overlapping a b → Overlapping b a
Overlapping-sym a b h = record {
  page = (h.page.1, h.page.0);
  from_left = h.from_right;
  from_right = h.from_left;
  from_below = h.from_above;
  from_above = h.from_below;
}

-- Two boxes overlap, for `fieldsOverlap`, exactly when they are on one page and neither ends, in
-- either direction, before the other begins, up to `epsilon`, where the edges are sums of doubles and
-- so rounded; the order of the two is of no account.
pub fields_overlap_iff :
    (a b : FieldBox)
    → ((fields_overlap a b ≡ true) ↔ Overlapping a b)
      × ((fields_overlap b a ≡ true) ↔ Overlapping a b)
fields_overlap_iff a b = (
  (fields_overlap-Overlapping a b, Overlapping-fields_overlap a b),
  (
    λ h. Overlapping-sym b a (fields_overlap-Overlapping b a h),
    λ h. Overlapping-fields_overlap b a (Overlapping-sym a b h),
  ),
)

-- No two of the boxes overlap.
abbrev pub Apart : List FieldBox → Type 0
Apart [] = Unit {0}
Apart (box ∷ boxes) = All (λ other. ¬ Overlapping box other) boxes × Apart boxes

assert_each_on_page_iff :
    (boxes : List FieldBox) (page_count : ℤ)
    → (assert_each_on_page boxes page_count ≡ ok tt) ↔ All (OnPage page_count) boxes
unfolding assert_each_on_page
assert_each_on_page_iff [] page_count = (λ h. tt, λ h. refl)
assert_each_on_page_iff (box ∷ boxes) page_count =
    let (there, back) = assert_each_on_page_iff boxes page_count in
    (
      λ h.
          let (_, first, rest) = >>=-eq-ok (assert_field_on_page box page_count) _ h in
          (assert_field_on_page-ok box page_count first, there rest),
      λ h. rw (OnPage-ok box page_count h.0) (back h.1),
    )

any-All :
    (box : FieldBox) (boxes : List FieldBox)
    → (any (fields_overlap box) boxes ≡ false) ↔ All (λ other. ¬ Overlapping box other) boxes
any-All box [] = (λ h. tt, λ h. refl)
any-All box (other ∷ boxes) =
    let (there, back) = any-All box boxes in
    let (into, back_from) = (fields_overlap_iff box other).0 in
    elim (Bool-cases (fields_overlap box other)) [
      | inl meets ↦ (λ h. ground arith, λ h. absurd (h.0 (into meets)))
      | inr clear ↦ (
        λ h. (λ o. ground (arith, back_from o), there (ground arith)),
        λ h. ground (arith, back h.1),
      )
    ]

assert_none_overlap_iff :
    (boxes : List FieldBox) → (assert_none_overlap boxes ≡ ok tt) ↔ Apart boxes
unfolding assert_none_overlap
assert_none_overlap_iff [] = (λ h. tt, λ h. refl)
assert_none_overlap_iff (box ∷ boxes) =
    let (there, back) = assert_none_overlap_iff boxes in
    let (clear, meets) = any-All box boxes in
    (
      λ h.
          let (_, first, rest) = >>=-eq-ok (throw_if (any (fields_overlap box) boxes) _) _ h in
          (clear (ground arith), there rest),
      λ h. rw (meets h.0) (back h.1),
    )

-- A layout is accepted exactly when the document has a page, every box has a size, lies on one of the
-- pages and ends inside it up to `epsilon`, and, unless the policy allows it, no two boxes overlap; the
-- edges are sums of doubles and so rounded.
pub assert_field_layout_iff :
    (boxes : List FieldBox) (page_count : ℤ) (policy : FieldOverlapPolicy)
    → (assert_field_layout boxes page_count policy ≡ ok tt) ↔ (
        (pos 1 ≤ℤ page_count)
        × All (OnPage page_count) boxes
        × (policy ≡ FieldOverlapPolicy.prohibit → Apart boxes))
unfolding assert_field_layout
assert_field_layout_iff boxes page_count FieldOverlapPolicy.prohibit =
    let (placed, fits) = assert_each_on_page_iff boxes page_count in
    let (apart, clear) = assert_none_overlap_iff boxes in
    (
      λ h.
          let (_, paged, rest) = >>=-eq-ok (throw_if (ltb_ℤ page_count (pos 1)) _) _ h in
          let (_, each, last) = >>=-eq-ok (assert_each_on_page boxes page_count) _ rest in
          (ground arith, placed each, λ same. apart last),
      λ h.
          let paged : ltb_ℤ page_count (pos 1) ≡ false = ground (arith, h.0) in
          rw (paged, fits h.1) (clear (h.2 refl)),
    )
assert_field_layout_iff boxes page_count FieldOverlapPolicy.allow =
    let (placed, fits) = assert_each_on_page_iff boxes page_count in
    (
      λ h.
          let (_, paged, rest) = >>=-eq-ok (throw_if (ltb_ℤ page_count (pos 1)) _) _ h in
          let (_, each, last) = >>=-eq-ok (assert_each_on_page boxes page_count) _ rest in
          (ground arith, placed each, λ same. cc),
      λ h.
          let paged : ltb_ℤ page_count (pos 1) ≡ false = ground (arith, h.0) in
          rw (paged, fits h.1) refl,
    )
