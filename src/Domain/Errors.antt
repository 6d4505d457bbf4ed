-- ===== src/Domain/Errors.antt =====
-- packages/domain/src/errors.ts: the nine error classes, and the results of code that throws them.
-- A detail that is a number or a list is left out.
use bug_free_fiesta.Prelude.{inr, inl, ◌⊎◌, String, List, ◌≡◌, refl, Bool, true, false}

pub data ApplicationErrorKind : Type 0 where
  validation authentication authorization not_found conflict : ApplicationErrorKind
  invalid_state_transition integrity external_service rate_limit : ApplicationErrorKind

pub record ApplicationError : Type 0 where
  pub kind : ApplicationErrorKind
  pub details : List (String × String)

abbrev pub validation_error : List (String × String) → ApplicationError
validation_error details = record { kind = validation; details = details }

abbrev pub authentication_error : List (String × String) → ApplicationError
authentication_error details = record { kind = authentication; details = details }

abbrev pub authorization_error : List (String × String) → ApplicationError
authorization_error details = record { kind = authorization; details = details }

abbrev pub not_found_error : List (String × String) → ApplicationError
not_found_error details = record { kind = not_found; details = details }

abbrev pub conflict_error : List (String × String) → ApplicationError
conflict_error details = record { kind = conflict; details = details }

abbrev pub invalid_state_transition_error : List (String × String) → ApplicationError
invalid_state_transition_error details = record {
  kind = invalid_state_transition;
  details = details;
}

abbrev pub integrity_error : List (String × String) → ApplicationError
integrity_error details = record { kind = integrity; details = details }

abbrev pub external_service_error : List (String × String) → ApplicationError
external_service_error details = record { kind = external_service; details = details }

pub data Result {ℓ} (A : Type ℓ) : Type ℓ where
  ok : A → Result A
  err : ApplicationError → Result A

-- `if (!allowed) throw e`
abbrev pub guard : Bool → ApplicationError → Result (Unit {0})
guard true e = ok tt
guard false e = err e

-- `if (failed) throw e`
abbrev pub throw_if : Bool → ApplicationError → Result (Unit {0})
throw_if true e = err e
throw_if false e = ok tt

-- `try { return true } catch { return false }`
abbrev pub succeeds {ℓ} : {A : Type ℓ} → Result A → Bool
succeeds (ok a) = true
succeeds (err e) = false

infixl 5 ◌>>=◌ ◌>>◌
-- What follows a call that may throw.
abbrev pub ◌>>=◌ {ℓ κ} : {A : Type ℓ} {B : Type κ} → Result A → (A → Result B) → Result B
ok value >>= rest = rest value
err thrown >>= rest = err thrown

abbrev pub ◌>>◌ {ℓ} : {B : Type ℓ} → Result (Unit {0}) → Result B → Result B
check >> rest = check >>= λ _. rest

-- A chain that answers has called both its parts, and both answered.
pub >>=-eq-ok {ℓ κ} :
    {A : Type ℓ} {B : Type κ} (call : Result A) (rest : A → Result B) {answer : B}
    → (call >>= rest) ≡ ok answer
    → (value : A) × (call ≡ ok value) × (rest value ≡ ok answer)
>>=-eq-ok (err thrown) rest answered = cc
>>=-eq-ok (ok value) rest answered = (value, refl, answered)

pub ok_or_err {ℓ} :
    {A : Type ℓ} (r : Result A) → ((a : A) × (r ≡ ok a)) ⊎ ((e : ApplicationError) × (r ≡ err e))
ok_or_err (ok a) = inl (a, refl)
ok_or_err (err e) = inr (e, refl)

pub ok_injective {ℓ} : {A : Type ℓ} {a b : A} → Path (Result A) (ok a) (ok b) → a ≡ b
ok_injective h = cc
