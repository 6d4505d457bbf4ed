-- ===== src/Domain/ObjectKeys/Tenants.antt =====
-- Which keys belong to a tenant.
use bug_free_fiesta.Prelude.{
  inr, subst, ◌||◌, ◌==◌, [], sym, ◌∙◌, arith, inl, refl, Bool-cases, ap, ◌++◌, ◌≡◌,
}
use bug_free_fiesta.Domain.ObjectKeys.{
  split_segments, is_unsafe, starts_with_slash, is_empty, without_last_slash, unsafe_segment, any,
  code, tenant_object_key_prefix, ◌∷◌, without_first_slashes, starts_with, true, ok, ℕ, codes,
  String, List, assert_tenant_object_key, assert_safe_object_key_segments, tenant_object_key,
  below_prefix, append_text,
}
use bug_free_fiesta.Domain.Text.{has_prefix}
use bug_free_fiesta.Domain.Errors.{ok_injective, throw_if, >>=-eq-ok}

codes-append_text : (a b : String) → codes (append_text a b) ≡ codes a ++ codes b
unfolding append_text
codes-append_text String.[] b = refl
codes-append_text (String.◌∷◌ c s) b = ap (λ cs. code c ∷ cs) (codes-append_text s b)

has_prefix-append : (p text : List ℕ) → has_prefix p (p ++ text) ≡ true
unfolding has_prefix
has_prefix-append [] text = refl
has_prefix-append (c ∷ p) text = ground (arith, has_prefix-append p text)

safe_is_same :
    (key checked : String) → assert_safe_object_key_segments key ≡ ok checked → key ≡ checked
unfolding assert_safe_object_key_segments
safe_is_same key checked h =
    let (_, plain, h1) =
      >>=-eq-ok (throw_if (any (λ c. c == 92 || c == 0) (codes key)) unsafe_segment) _ h in
    let for_check = without_last_slash (codes key) in
    let (_, started, h2) =
      >>=-eq-ok (throw_if (is_empty for_check || starts_with_slash for_check) unsafe_segment) _
        h1 in
    let (_, split, h3) =
      >>=-eq-ok (throw_if (any is_unsafe (split_segments for_check)) unsafe_segment) _ h2 in
    ok_injective h3

below_prefix-starts :
    (prefix trimmed key : String)
    → assert_safe_object_key_segments trimmed ≡ ok trimmed
    → below_prefix prefix trimmed ≡ ok key
    → (assert_safe_object_key_segments key ≡ ok key) × (starts_with prefix key ≡ true)
unfolding below_prefix
below_prefix-starts prefix trimmed key safe h = elim (Bool-cases (starts_with "org/" trimmed)) [
  | inl named ↦ elim (Bool-cases (starts_with prefix trimmed)) [
    | inl own ↦
        let same : trimmed ≡ key = ok_injective (rw (named, own) at h) in
        subst (λ k. (assert_safe_object_key_segments k ≡ ok k) × (starts_with prefix k ≡ true)) same
          (safe, own)
    | inr other ↦ absurd (ground arith)
  ]
  | inr relative ↦
      let h1 = (rw relative at h) in
      let same = safe_is_same (append_text prefix trimmed) key h1 in
      subst (λ k. (assert_safe_object_key_segments k ≡ ok k) × (starts_with prefix k ≡ true)) same
        (
          h1 ∙ ap (λ k. ok k) (sym same),
          rw (codes-append_text prefix trimmed) (has_prefix-append (codes prefix) (codes trimmed)),
        )
]

-- A key that is built for an organization is accepted as a key of that organization.
pub tenant_object_key-belongs :
    (organization_id relative_key key : String)
    → tenant_object_key organization_id relative_key ≡ ok key
    → assert_tenant_object_key organization_id key ≡ ok key
unfolding tenant_object_key assert_tenant_object_key
tenant_object_key-belongs organization_id relative_key key h =
    let trimmed = without_first_slashes relative_key in
    let (prefix, own, h1) = >>=-eq-ok (tenant_object_key_prefix organization_id) _ h in
    let (checked, safe, h2) = >>=-eq-ok (assert_safe_object_key_segments trimmed) _ h1 in
    let trimmed_safe = safe ∙ ap (λ k. ok k) (sym (safe_is_same trimmed checked safe)) in
    let (key_safe, starts) = below_prefix-starts prefix trimmed key trimmed_safe h2 in
    rw (key_safe, own, starts) refl
