-- ===== src/Base/Numbered.antt =====
-- Lists whose elements carry their positions: an entry that is pushed gets the length plus one.
use Prim.Native.Nat.{ℕ, suc, ◌+◌}
use mathlib.Core.List.{List, [], ◌∷◌, ◌++◌}
use mathlib.Core.Path.{◌≡◌}
use native.Mathlib.Omega.{arith}
use woyengi.Base.Lists.{length}

module _ {ℓ} {A : Type ℓ} (number : A → ℕ) where
  -- The elements are numbered from the successor of a number on.
  abbrev pub IsNumbered : ℕ → List A → Type 0
  IsNumbered n [] = Unit
  IsNumbered n (x ∷ xs) = (number x ≡ suc n) × IsNumbered (suc n) xs

  pub append-IsNumbered :
      (n : ℕ) (xs : List A) (x : A)
      → IsNumbered n xs
      → number x ≡ suc (n + length xs)
      → IsNumbered n (xs ++ x ∷ [])
  append-IsNumbered n [] x i h = (omega arith, tt)
  append-IsNumbered n (y ∷ ys) x (k, i) h = (k, append-IsNumbered (suc n) ys x i (omega arith))
