-- ===== src/Base/Doubles.antt =====
-- `+` on finite doubles: the exact sum, rounded to 53 bits, half to even. A sum that is too large
-- for a double is infinite in the program; here it stays a number above every double.
use Prim.Native.Nat.{ℕ, zero, suc, ◌+◌, ◌-◌, ◌*◌, ◌/◌, ◌%◌, ◌^◌}
use mathlib.Core.Bool.{true, false, ◌&&◌, ◌||◌}
use woyengi.Base.Number.{pos, negsuc, Number}
use woyengi.Base.Tests.{ltb, ◌==◌, if◌then◌else◌}

-- The number of binary digits; `n` itself is fuel enough.
bit_length : ℕ → ℕ → ℕ
bit_length zero n = 0
bit_length (suc fuel) n = elim (n == 0) [ true ↦ 0 | false ↦ suc (bit_length fuel (n / 2)) ]

round_to : ℕ → ℕ → ℕ
round_to unit n =
    let quotient = n / unit in
    let twice = 2 * (n % unit) in
    (if ltb unit twice || (twice == unit && quotient % 2 == 1) then quotient + 1 else quotient)
    * unit

round_double : ℕ → ℕ
unfolding bit_length round_to
round_double n = round_to (2 ^ (bit_length n n - 53)) n

round_number : Number → Number
unfolding round_double
round_number (pos n) = pos (round_double n)
round_number (negsuc n) = negsuc (round_double (n + 1) - 1)

exact_sum : Number → Number → Number
exact_sum (pos a) (pos b) = pos (a + b)
exact_sum (pos a) (negsuc b) = if ltb b a then pos (a - b - 1) else negsuc (b - a)
exact_sum (negsuc a) (pos b) = if ltb a b then pos (b - a - 1) else negsuc (a - b)
exact_sum (negsuc a) (negsuc b) = negsuc (a + b + 1)

unfoldable pub add_number : Number → Number → Number
unfolding exact_sum round_number
add_number a b = round_number (exact_sum a b)
