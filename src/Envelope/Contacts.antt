-- ===== src/Envelope/Contacts.antt =====
-- packages/application/src/documents/replace-preparation.ts: the address and the name of a signer.
use Prim.Native.Char.{Char, code}
use bug_free_fiesta.Prelude.{
  [], ◌||◌, all, ◌-◌, ◌==◌, ◌∷◌, ◌&&◌, zero, refl, false, if◌then◌else◌, not, suc, true, String,
  List, ◌≡◌, Bool, ℕ,
}
use bug_free_fiesta.Domain.Text.{codes, in_range, is_space}

abbrev letter : String → ℕ → Char → Char
letter String.[] n other = other
letter (String.◌∷◌ c s) zero other = c
letter (String.◌∷◌ c s) (suc n) other = letter s n other

-- `toLowerCase()` on the letters of ASCII
unfoldable pub lower_case : String → String
lower_case String.[] = String.[]
lower_case (String.◌∷◌ c s) =
    String.◌∷◌
      (if in_range b'A' b'Z' (code c)
        then letter "abcdefghijklmnopqrstuvwxyz" (code c - 65) c
        else c)
      (lower_case s)

-- `[^\s@]`
abbrev is_address_char : ℕ → Bool
is_address_char c = not (is_space c) && not (c == b'@')

-- A dot that stands neither first nor last.
abbrev dot_before_last : List ℕ → Bool
dot_before_last [] = false
dot_before_last (c ∷ []) = false
dot_before_last (c ∷ d ∷ rest) = c == b'.' || dot_before_last (d ∷ rest)

abbrev is_domain : List ℕ → Bool
is_domain [] = false
is_domain (c ∷ rest) = all is_address_char (c ∷ rest) && dot_before_last rest

-- The rest of an address, and whether a character stands before it.
abbrev address_from : Bool → List ℕ → Bool
address_from begun [] = false
address_from begun (c ∷ rest) =
    if c == b'@' then begun && is_domain rest else is_address_char c && address_from true rest

-- `EMAIL_PATTERN.test(email)`
unfoldable pub is_email : String → Bool
unfolding is_space
is_email email = address_from false (codes email)

is_email_test :
    (is_email "ada@example.org" ≡ true)
    × (is_email "ada@example." ≡ false)
    × (is_email "a@b@c.d" ≡ false)
    × (is_email "@b.c" ≡ false)
    × (lower_case "Ada@Example.ORG" ≡ "ada@example.org")
unfolding is_email lower_case
is_email_test = (refl, refl, refl, refl, refl)
