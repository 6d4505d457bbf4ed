-- ===== src/Domain/Doubles.antt =====
-- The finite numbers of JavaScript, which are doubles: each is a whole multiple of 2 ^ -1074, and here
-- it is that multiple. A comparison is that of the integers. A sum is rounded to 53 binary digits, ties
-- to the even one; a sum beyond the largest double stays above all of them, as Infinity does.
use bug_free_fiesta.Prelude.{
  inr, ◌==◌, if◌then◌else◌, inl, arith, ◌%◌, zero, Bool-cases, ◌*◌, ◌+◌, ◌-◌, ltb, ◌<◌, ◌≤◌, ◌/◌, ℕ,
  suc, true, false,
}
use bug_free_fiesta.Prelude.Int.{ℤ, pos, negsuc, ◌+ℤ◌}

-- 2 ^ 53
abbrev pub two_53 : ℕ
two_53 = 9007199254740992

-- The power of two that the last of the 53 digits of `n` stands for.
unfoldable pub unit_of : ℕ → ℕ → ℕ → ℕ
unit_of zero unit n = unit
unit_of (suc fuel) unit n = elim (ltb n (unit * two_53)) [
  | true ↦ unit
  | false ↦ unit_of fuel (2 * unit) n
]

unfoldable pub round_to : ℕ → ℕ → ℕ
round_to unit n =
    let below = n / unit in
    let rest = 2 * (n % unit) in
    if ltb rest unit
    then below * unit
    else (if rest == unit then (below + below % 2) * unit else (below + 1) * unit)

unfoldable pub round_double : ℤ → ℤ
unfolding unit_of round_to
round_double (pos n) = pos (round_to (unit_of n 1 n) n)
round_double (negsuc n) = negsuc (round_to (unit_of (suc n) 1 (suc n)) (suc n) - 1)

-- `a + b`
unfoldable pub add_double : ℤ → ℤ → ℤ
unfolding round_double
add_double a b = round_double (a +ℤ b)

-- The fuel is enough: no sum has a digit beyond the 53.
unit_of-enough :
    (fuel unit n : ℕ) → 1 ≤ unit → n < fuel + unit * two_53 → n < unit_of fuel unit n * two_53
unfolding unit_of
unit_of-enough zero unit n h k = omega arith
unit_of-enough (suc fuel) unit n h k = elim (Bool-cases (ltb n (unit * two_53))) [
  | inl below ↦ ground (arith, below)
  | inr above ↦
      let rest = unit_of-enough fuel (2 * unit) n (omega arith) (omega arith) in
      ground (arith, rest)
]

pub fuel_suffices : (n : ℕ) → n < unit_of n 1 n * two_53
fuel_suffices n = unit_of-enough n 1 n (omega arith) (omega arith)
