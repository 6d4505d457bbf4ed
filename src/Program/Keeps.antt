-- ===== src/Program/Keeps.antt =====
-- What a handler keeps, whether it returns or throws: one rule for each way to build a handler.
use bug_free_fiesta.Program.{
  Repositories, Outcome, done, failed, Handler, left, pure, throw, lift, gets, require, ◌>>=◌,
  continue,
}
use bug_free_fiesta.Domain.Errors.{Result, ok, err, ApplicationError}
use bug_free_fiesta.Prelude.{if◌then◌else◌, Option, some, none, Bool, true, false}

-- `m` leaves `P` to hold where it held.
pub record Keeps {ℓ} {A : Type ℓ} (P : Repositories → Type 0) (m : Handler A) : Type ℓ where
  pub at : (s : Repositories) → P s → P (left (m s))

module _ {ℓ} {A : Type ℓ} {P : Repositories → Type 0} where
  pub Keeps-pure : (a : A) → Keeps P (pure a)
  unfolding pure
  Keeps-pure a = record { at = λ s h. h }

  pub Keeps-throw : (e : ApplicationError) → Keeps P (throw {A = A} e)
  unfolding throw
  Keeps-throw e = record { at = λ s h. h }

  pub Keeps-lift : (r : Result A) → Keeps P (lift r)
  unfolding lift
  Keeps-lift (ok a) = record { at = λ s h. h }
  Keeps-lift (err e) = record { at = λ s h. h }

  pub Keeps-gets : (f : Repositories → A) → Keeps P (gets f)
  unfolding gets
  Keeps-gets f = record { at = λ s h. h }

  pub Keeps-require : (o : Option A) (e : ApplicationError) → Keeps P (require o e)
  unfolding require
  Keeps-require none e = record { at = λ s h. h }
  Keeps-require (some a) e = record { at = λ s h. h }

  pub Keeps-if : (b : Bool) (m n : Handler A) → Keeps P m → Keeps P n → Keeps P (if b then m else n)
  Keeps-if true m n km kn = km
  Keeps-if false m n km kn = kn

module _ {ℓ κ} {A : Type ℓ} {B : Type κ} {P : Repositories → Type 0} where
  Keeps-continue :
      (o : Outcome A) (f : A → Handler B)
      → P (left o)
      → ((a : A) → Keeps P (f a))
      → P (left (continue o f))
  Keeps-continue (done a s) f h kf = (kf a).at s h
  Keeps-continue (failed e s) f h kf = h

  pub Keeps-bind :
      (m : Handler A) (f : A → Handler B)
      → Keeps P m
      → ((a : A) → Keeps P (f a))
      → Keeps P (m >>= f)
  unfolding ◌>>=◌
  Keeps-bind m f km kf = record { at = λ s h. Keeps-continue (m s) f (km.at s h) kf }

pub ruleset keeps_rules =
    (Keeps-pure, Keeps-throw, Keeps-lift, Keeps-gets, Keeps-require, Keeps-if, Keeps-bind)
