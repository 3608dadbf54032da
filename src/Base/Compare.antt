-- ===== src/Base/Compare.antt =====
-- Comparators: composed by `||`, taken of a part, and those of strings and numbers.
use Prim.Native.Nat.{Ordering}
use mathlib.Core.List.{[], ◌∷◌}
use mathlib.Core.Path.{◌≡◌, refl}
use mathlib.Core.Logic.{◌≢◌, ◌⊎◌, inl, inr}
use native.Mathlib.Omega.{arith}
use woyengi.Base.Number.{
  pos, negsuc, Number, compare_number, Double, nan, finite, number_zero, compare_double,
}
use woyengi.Base.Sort.{IsComparator, swap}
use woyengi.Base.Texts.{Text, or_else, compare_units, text_le_trans}

-- The first key decides where it differs, and the rest where it is equal.
abbrev pub Then : Ordering → Type 0 → Type 0
Then o Rest = (o ≡ Ordering.lt) ⊎ ((o ≡ Ordering.eq) × Rest)

pub Then-or_else :
    (o p : Ordering) (Rest : Type 0)
    → (p ≢ Ordering.gt → Rest)
    → or_else o p ≢ Ordering.gt
    → Then o Rest
Then-or_else Ordering.lt p Rest f n = inl refl
Then-or_else Ordering.eq p Rest f n = inr (refl, f n)
Then-or_else Ordering.gt p Rest f n = absurd (n refl)

module _ {A : Type 0} where
  pub lexicographic :
      (f g : A → A → Ordering)
      → IsComparator f
      → IsComparator g
      → IsComparator (λ a b. or_else (f a b) (g a b))
  lexicographic f g p q = record {
    flip = λ a b. ground (arith, p.flip a b, q.flip a b);
    trans = λ a b c h k. ground (
      arith,
      p.flip a b,
      p.flip b c,
      p.flip a c,
      p.trans a b c,
      p.trans b c a,
      p.trans c a b,
      q.trans a b c,
    );
  }

  pub descending : (f : A → A → Ordering) → IsComparator f → IsComparator (λ a b. f b a)
  descending f p = record { flip = λ a b. p.flip b a; trans = λ a b c h k. p.trans c b a k h }

pub by_key :
    {A B : Type 0} (k : A → B) (f : B → B → Ordering)
    → IsComparator f
    → IsComparator (λ a b. f (k a) (k b))
by_key k f p = record {
  flip = λ a b. p.flip (k a) (k b);
  trans = λ a b c h l. p.trans (k a) (k b) (k c) h l;
}

compare_units-swap : (a b : Text) → compare_units b a ≡ swap (compare_units a b)
unfolding compare_units
compare_units-swap [] [] = refl
compare_units-swap [] (y ∷ ys) = refl
compare_units-swap (x ∷ xs) [] = refl
compare_units-swap (x ∷ xs) (y ∷ ys) = ground (arith, compare_units-swap xs ys)

pub compare_units-IsComparator : IsComparator compare_units
compare_units-IsComparator = record { flip = compare_units-swap; trans = text_le_trans }

compare_number-swap : (a b : Number) → compare_number b a ≡ swap (compare_number a b)
compare_number-swap (pos a) (pos b) = ground arith
compare_number-swap (pos a) (negsuc b) = refl
compare_number-swap (negsuc a) (pos b) = refl
compare_number-swap (negsuc a) (negsuc b) = ground arith

pub compare_number-IsComparator : IsComparator compare_number
compare_number-IsComparator = record {
  flip = compare_number-swap;
  trans = λ a b c h k. ground arith;
}

-- The number that a double is, where it is one.
abbrev pub known_number : Double → Number
known_number nan = number_zero
known_number (finite n) = n

pub compare_double-number :
    (a b : Double)
    → a ≢ nan
    → b ≢ nan
    → compare_double a b ≡ compare_number (known_number a) (known_number b)
compare_double-number nan b n m = absurd (n refl)
compare_double-number (finite a) nan n m = absurd (m refl)
compare_double-number (finite a) (finite b) n m = refl
