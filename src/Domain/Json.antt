-- ===== src/Domain/Json.antt =====
-- The values that a payload of type `Record<string, unknown>` holds. The keys of an object are
-- distinct, in the order of insertion; a number is a natural number, or one that is not finite.
use bug_free_fiesta.Prelude.{ℕ, String, Bool, List, [], ◌∷◌}

mutual
  pub data Json : Type 0 where
    null undefined : Json
    boolean : Bool → Json
    number : ℕ → Json
    non_finite_number : Json
    string : String → Json
    date : ℕ → Json
    invalid_date : Json
    binary : Json
    array : Elems → Json
    object : Props → Json
    -- a function, a symbol or a bigint
    unsupported : Json

  pub data Elems : Type 0 where
    nil : Elems
    elem : Json → Elems → Elems

  pub data Props : Type 0 where
    end : Props
    prop : String → Json → Props → Props

abbrev pub strings : List String → Elems
strings [] = nil
strings (s ∷ ss) = elem (string s) (strings ss)

abbrev pub entries : Props → List (String × Json)
entries end = []
entries (prop key value rest) = (key, value) ∷ entries rest
