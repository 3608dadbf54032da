-- ===== src/Base/Number.antt =====
-- The finite numbers of the program. Each finite double is a multiple of 2 ^ -1074, so a number is
-- the integer of such units; only comparisons are taken. The infinities are left out.
use Prim.Native.Nat.{ℕ, compare, ◌^◌, ◌*◌, Ordering}
use mathlib.Core.Bool.{Bool, true, false}

-- `negsuc n` is -(n + 1).
pub data ℤ : Type 0 where
  pos : ℕ → ℤ
  negsuc : ℕ → ℤ

abbrev pub Number : Type 0
Number = ℤ

-- The sign of `a - b`.
abbrev pub compare_number : Number → Number → Ordering
compare_number (pos a) (pos b) = compare a b
compare_number (pos a) (negsuc b) = Ordering.gt
compare_number (negsuc a) (pos b) = Ordering.lt
compare_number (negsuc a) (negsuc b) = compare b a

abbrev pub number_lt : Number → Number → Bool
number_lt a b = elim (compare_number a b) [ Ordering.lt ↦ true | _ ↦ false ]

abbrev pub number_zero : Number
number_zero = pos 0

unfoldable pub number_one : Number
number_one = pos (2 ^ 1074)

-- The number of a natural.
unfoldable pub integer : ℕ → Number
integer n = pos (n * 2 ^ 1074)

-- A number of the program that nothing has checked.
pub data Double : Type 0 where
  nan : Double
  finite : Number → Double

-- `a < b`, which is false of NaN.
abbrev pub double_lt : Double → Double → Bool
double_lt (finite a) (finite b) = number_lt a b
double_lt _ _ = false

-- The sign of `a - b` as `||` reads it: NaN is falsy, like 0.
abbrev pub compare_double : Double → Double → Ordering
compare_double (finite a) (finite b) = compare_number a b
compare_double _ _ = Ordering.eq
