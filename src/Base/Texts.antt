-- ===== src/Base/Texts.antt =====
-- A string of the program is its list of UTF-16 code units: equality, `trim`, `startsWith`,
-- `includes`, and the order of `<` and of a `sort` with no comparator.
use Prim.Native.Char.{code}
use Prim.Native.Nat.{ℕ, ◌+◌, ◌-◌, ◌/◌, ◌%◌, compare, Ordering}
use Prim.Native.String.{String}
use mathlib.Core.Bool.{Bool, true, false, ◌&&◌, ◌||◌}
use mathlib.Core.List.{List, [], ◌∷◌, ◌++◌, reverse}
use mathlib.Core.Logic.{inl, inr}
use mathlib.Core.Path.{◌≡◌, refl}
use native.Mathlib.Decide.{ℕ_discrete}
use native.Mathlib.Omega.{arith}
use woyengi.Base.Tests.{Bool-cases, ltb, leb, ◌==◌, if◌then◌else◌}

abbrev pub Text : Type 0
Text = List ℕ

-- One code point as code units: a surrogate pair from 0x10000 up.
code_units : ℕ → Text
code_units c =
    if ltb c 0x10000
    then c ∷ []
    else (0xd800 + (c - 0x10000) / 1024) ∷ (0xdc00 + (c - 0x10000) % 1024) ∷ []

-- A string literal of the source.
unfoldable pub text : String → Text
unfolding code_units
text String.[] = []
text (String.◌∷◌ c s) = code_units (code c) ++ text s

unfoldable pub text_discrete : Discrete Text
unfolding ℕ_discrete
text_discrete [] [] = yes refl
text_discrete [] (y ∷ ys) = no (λ p. cc)
text_discrete (x ∷ xs) [] = no (λ p. cc)
text_discrete (x ∷ xs) (y ∷ ys) = both (ℕ_discrete x y) (text_discrete xs ys)
  where
    both : Dec (x ≡ y) → Dec (xs ≡ ys) → Dec (x ∷ xs ≡ y ∷ ys)
    both (yes p) (yes q) = yes (λ i. p i ∷ q i)
    both (no p) d = no (λ e. p (cc))
    both (yes p) (no q) = no (λ e. q (cc))

-- `===` on strings.
abbrev pub same : Text → Text → Bool
same s t = elim (text_discrete s t) [ yes _ ↦ true | no _ ↦ false ]

unfoldable pub starts_with : Text → Text → Bool
starts_with s [] = true
starts_with [] (p ∷ ps) = false
starts_with (c ∷ s) (p ∷ ps) = c == p && starts_with s ps

unfoldable pub includes : Text → Text → Bool
unfolding starts_with
includes [] t = starts_with [] t
includes (c ∷ s) t = starts_with (c ∷ s) t || includes s t

-- White space and line ends, as `String.prototype.trim` takes them.
pub is_space : ℕ → Bool
is_space c =
    (leb 0x9 c && leb c 0xd)
    || c == 0x20
    || c == 0xa0
    || c == 0x1680
    || (leb 0x2000 c && leb c 0x200a)
    || c == 0x2028
    || c == 0x2029
    || c == 0x202f
    || c == 0x205f
    || c == 0x3000
    || c == 0xfeff

trim_start : Text → Text
unfolding is_space
trim_start [] = []
trim_start (c ∷ s) = let rest = trim_start s in if is_space c then rest else c ∷ s

unfoldable pub trim : Text → Text
unfolding trim_start
trim s = reverse (trim_start (reverse (trim_start s)))

-- `a || b` on the results of two comparisons.
abbrev pub or_else : Ordering → Ordering → Ordering
or_else Ordering.eq c = c
or_else Ordering.lt _ = Ordering.lt
or_else Ordering.gt _ = Ordering.gt

unfoldable pub compare_units : Text → Text → Ordering
compare_units [] [] = Ordering.eq
compare_units [] (y ∷ ys) = Ordering.lt
compare_units (x ∷ xs) [] = Ordering.gt
compare_units (x ∷ xs) (y ∷ ys) = or_else (compare x y) (compare_units xs ys)

-- `a <= b` and `a < b` on strings.
abbrev pub text_le : Text → Text → Bool
text_le a b = elim (compare_units a b) [ Ordering.gt ↦ false | _ ↦ true ]

abbrev pub text_lt : Text → Text → Bool
text_lt a b = elim (compare_units a b) [ Ordering.lt ↦ true | _ ↦ false ]

pub compare_units_refl : (a : Text) → compare_units a a ≡ Ordering.eq
unfolding compare_units
compare_units_refl [] = refl
compare_units_refl (x ∷ xs) = ground (arith, compare_units_refl xs)

-- Comparison is equality only on equal strings.
pub compare_units-eq : (a b : Text) → compare_units a b ≡ Ordering.eq → a ≡ b
unfolding compare_units
compare_units-eq [] [] h = refl
compare_units-eq [] (y ∷ ys) h = cc
compare_units-eq (x ∷ xs) [] h = cc
compare_units-eq (x ∷ xs) (y ∷ ys) h = ground (arith, compare_units-eq xs ys)

pub compare_units-flip :
    (a b : Text) → compare_units a b ≡ Ordering.gt → compare_units b a ≡ Ordering.lt
unfolding compare_units
compare_units-flip [] [] h = cc
compare_units-flip [] (y ∷ ys) h = cc
compare_units-flip (x ∷ xs) [] h = refl
compare_units-flip (x ∷ xs) (y ∷ ys) h = ground (arith, compare_units-flip xs ys)

pub text_le_refl : (a : Text) → text_le a a ≡ true
text_le_refl a = ground (arith, compare_units_refl a)

pub text_le_trans : (a b c : Text) → text_le a b ≡ true → text_le b c ≡ true → text_le a c ≡ true
unfolding compare_units
text_le_trans [] b [] h k = refl
text_le_trans [] b (z ∷ zs) h k = refl
text_le_trans (x ∷ xs) [] c h k = cc
text_le_trans (x ∷ xs) (y ∷ ys) [] h k = cc
text_le_trans (x ∷ xs) (y ∷ ys) (z ∷ zs) h k = ground (arith, text_le_trans xs ys zs)

-- `a < b` is the negation of `b <= a`.
pub text_lt-false : (a b : Text) → text_lt a b ≡ false → text_le b a ≡ true
unfolding compare_units
text_lt-false [] [] h = refl
text_lt-false [] (y ∷ ys) h = cc
text_lt-false (x ∷ xs) [] h = refl
text_lt-false (x ∷ xs) (y ∷ ys) h = ground (arith, text_lt-false xs ys)

pub text_lt-true : (a b : Text) → text_lt a b ≡ true → text_le b a ≡ false
unfolding compare_units
text_lt-true [] [] h = cc
text_lt-true [] (y ∷ ys) h = refl
text_lt-true (x ∷ xs) [] h = cc
text_lt-true (x ∷ xs) (y ∷ ys) h = ground (arith, text_lt-true xs ys)

pub text_le-false : (a b : Text) → text_le a b ≡ false → text_lt b a ≡ true
text_le-false a b h = ground (arith, compare_units-flip a b)

pub text_le-text_lt : (a b : Text) → text_le a b ≡ true → text_lt b a ≡ false
text_le-text_lt a b h = elim (Bool-cases (text_lt b a)) [
  | inl e ↦ cc (h, text_lt-true b a e)
  | inr e ↦ e
]

pub same_refl : (s : Text) → same s s ≡ true
same_refl s = ground arith

pub same-eq : (s t : Text) → same s t ≡ true → s ≡ t
same-eq s t h = ground arith
