-- ===== src/Domain/Payload/Approved.antt =====
-- What an approved payload cannot hold.
use bug_free_fiesta.Domain.Json.{
  Json, null, undefined, boolean, number, string, date, invalid_date, array, object, Elems, nil,
  elem, Props, end, prop,
}
use bug_free_fiesta.Domain.Payload.{
  is_forbidden_key, check_props, check_elems, codes, utf16_length, false, String, ℕ,
  assert_approved_value, assert_approved_audit_payload,
}
use bug_free_fiesta.Prelude.{◌≤◌, ◌+◌, arith, ◌≡◌, Bool}
use bug_free_fiesta.Domain.Errors.{ok}

-- A value in which no object, at any depth, has a forbidden key, and which holds no long text, no
-- binary data and no number that is not finite.
mutual
  pub data Clean : Json → Type 0 where
    of_null : Clean null
    of_boolean : {b : Bool} → Clean (boolean b)
    of_number : {n : ℕ} → Clean (number n)
    of_string : {s : String} → utf16_length (codes s) ≤ 4096 → Clean (string s)
    of_date : {t : ℕ} → Clean (date t)
    of_invalid_date : Clean invalid_date
    of_array : {values : Elems} → CleanElems values → Clean (array values)
    of_object : {payload : Props} → CleanProps payload → Clean (object payload)

  pub data CleanElems : Elems → Type 0 where
    of_nil : CleanElems nil
    of_elem : {v : Json} {rest : Elems} → Clean v → CleanElems rest → CleanElems (elem v rest)

  pub data CleanProps : Props → Type 0 where
    of_end : CleanProps end
    of_undefined :
        {key : String} {rest : Props}
        → is_forbidden_key key ≡ false
        → CleanProps rest
        → CleanProps (prop key undefined rest)
    of_prop :
        {key : String} {v : Json} {rest : Props}
        → is_forbidden_key key ≡ false
        → Clean v
        → CleanProps rest
        → CleanProps (prop key v rest)

mutual
  unfolding assert_approved_value

  value-Clean : (v : Json) (depth : ℕ) → assert_approved_value v depth ≡ ok tt → Clean v
  value-Clean null depth h = of_null
  value-Clean (boolean b) depth h = of_boolean
  value-Clean (number n) depth h = of_number
  value-Clean (string s) depth h = of_string (ground arith)
  value-Clean (date t) depth h = of_date
  value-Clean invalid_date depth h = of_invalid_date
  value-Clean (array values) depth h = of_array (elems-Clean values (depth + 1) (ground arith))
  value-Clean (object payload) depth h =
      of_object (props-Clean payload (depth + 1 + 1) (ground arith))
  value-Clean _ depth h = absurd (ground arith)

  elems-Clean : (values : Elems) (depth : ℕ) → check_elems values depth ≡ ok tt → CleanElems values
  elems-Clean nil depth h = of_nil
  elems-Clean (elem v rest) depth h =
      of_elem (value-Clean v depth (ground arith)) (elems-Clean rest depth (ground arith))

  props-Clean :
      (payload : Props) (depth : ℕ) → check_props payload depth ≡ ok tt → CleanProps payload
  props-Clean end depth h = of_end
  props-Clean (prop key undefined rest) depth h =
      of_undefined (ground arith) (props-Clean rest depth (ground arith))
  props-Clean (prop key v rest) depth h =
      of_prop (ground arith) (value-Clean v depth (ground arith))
        (props-Clean rest depth (ground arith))

-- A payload that `assertApprovedAuditPayload` lets through has, at any depth, no forbidden key, no
-- text of more than 4096 code units, no binary data and no number that is not finite.
pub approved-Clean :
    (payload : Props) → assert_approved_audit_payload payload ≡ ok tt → CleanProps payload
unfolding assert_approved_audit_payload
approved-Clean payload h = props-Clean payload 1 (ground arith)
