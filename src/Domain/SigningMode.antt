-- ===== src/Domain/SigningMode.antt =====
-- packages/domain/src/signing-mode.ts: the order in which the signers of a document act. A routing
-- order is a natural number; a `Set` of orders is a list without repetitions.
pub mod Routing
pub mod Turns
use bug_free_fiesta.Prelude.{
  str_eq, ◌||◌, String, ◌&&◌, ℕ, zero, suc, ◌+◌, Bool, true, false, not, List, [], ◌∷◌, Option,
  none, some, map, length, any, keep_if, ltb, ◌==◌, if◌then◌else◌,
}
use bug_free_fiesta.Domain.Errors.{
  ApplicationError, Result, ok, err, ◌>>◌, guard, throw_if, validation_error,
}
use bug_free_fiesta.Domain.Statuses.{SigningMode, ordered, parallel, pending, signer_status_eq}
use bug_free_fiesta.Domain.Entities.{Signer}

-- `set.has(order)` and `array.includes(order)`
unfoldable pub includes : ℕ → List ℕ → Bool
includes order [] = false
includes order (x ∷ xs) = x == order || includes order xs

-- `new Set(orders)`
unfoldable pub set_of : List ℕ → List ℕ
unfolding includes
set_of [] = []
set_of (x ∷ xs) = if includes x xs then set_of xs else x ∷ set_of xs

-- The loop `for (expected = …; …; expected += 1)`, with the rounds that are left.
unfoldable pub consecutive_from : List ℕ → ℕ → ℕ → Bool
consecutive_from unique expected zero = true
consecutive_from unique expected (suc rounds) =
    includes expected unique && consecutive_from unique (expected + 1) rounds

abbrev pub routing_error : String → ApplicationError
routing_error reason = validation_error (("field", "routingOrder") ∷ ("reason", reason) ∷ [])

assert_ordered : List ℕ → Result (Unit {0})
assert_ordered orders = do
  let unique = set_of orders
  guard (length unique == length orders) (routing_error "ordered_must_be_unique")
  guard (consecutive_from unique 1 (length orders)) (routing_error "ordered_must_be_consecutive")

abbrev pub orders_of : List Signer → List ℕ
orders_of = map (λ signer. signer.routing_order)

unfoldable pub assert_signer_routing : SigningMode → List Signer → Result (Unit {0})
unfolding assert_ordered
assert_signer_routing signing_mode signers = do
  let orders = orders_of signers
  throw_if (length signers == 0)
      (validation_error (("field", "signers") ∷ ("reason", "empty") ∷ []))
  throw_if (any (λ order. ltb order 1) orders) (routing_error "invalid")
  elim signing_mode [
    | parallel ↦
        throw_if (any (λ order. not (order == 1)) orders) (routing_error "parallel_must_be_one")
    | ordered ↦ assert_ordered orders
  ]

-- `Math.min(...orders)`, undefined on the empty list
unfoldable pub lowest : List ℕ → Option ℕ
lowest [] = none
lowest (x ∷ xs) = elim (lowest xs) [ none ↦ some x | some y ↦ some (if ltb y x then y else x) ]

abbrev pub is_pending : Signer → Bool
is_pending signer = signer_status_eq signer.status pending

-- `currentOrder === actor.routingOrder`
abbrev option_eq : Option ℕ → ℕ → Bool
option_eq none order = false
option_eq (some current) order = current == order

unfoldable pub can_signer_act_now : SigningMode → Signer → List Signer → Bool
unfolding lowest
can_signer_act_now signing_mode actor signers =
    if is_pending actor
    then (elim signing_mode [
      | parallel ↦ true
      | ordered ↦ option_eq (lowest (orders_of (keep_if is_pending signers))) actor.routing_order
    ])
    else false

-- `assertedSigningMode`
unfoldable pub asserted_signing_mode : String → Result SigningMode
asserted_signing_mode value =
    if str_eq value "ordered"
    then ok ordered
    else (if str_eq value "parallel"
        then ok parallel
        else err (validation_error (("field", "signingMode") ∷ ("reason", "invalid") ∷ [])))
