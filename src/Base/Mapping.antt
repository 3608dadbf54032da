-- ===== src/Base/Mapping.antt =====
-- `map` with a function that may throw.
use mathlib.Core.List.{List, [], ◌∷◌}
use mathlib.Core.Logic.{inl, inr}
use mathlib.Core.Path.{◌≡◌, refl}
use native.Mathlib.Omega.{arith}
use woyengi.Base.Lists.{In}
use woyengi.Base.Results.{Result, ok, map_result}

module _ {A B : Type 0} (f : A → Result B) where
  -- Where the function returns on each element, the results are those of the elements.
  pub map_result_total :
      (xs : List A)
      → ((x : A) → In x xs → (y : B) × (f x ≡ ok y))
      → (ys : List B) × (map_result f xs ≡ ok ys)
        × ((x : A) → In x xs → (y : B) × (f x ≡ ok y) × In y ys)
        × ((y : B) → In y ys → (x : A) × In x xs × (f x ≡ ok y))
  unfolding map_result
  map_result_total [] g = ([], refl, (λ x i. absurd i), (λ y i. absurd i))
  map_result_total (x ∷ xs) g =
      let (y, e) = g x (inl refl) in
      let (ys, m, to, from) = map_result_total xs (λ a i. g a (inr i)) in
      (
        y ∷ ys,
        ground arith,
        (λ a i. elim i [
          | inl q ↦ (y, ground arith, inl refl)
          | inr j ↦ let (b, d, k) = to a j in (b, d, inr k)
        ]),
        (λ b i. elim i [
          | inl q ↦ (x, inl refl, ground arith)
          | inr j ↦ let (a, k, d) = from b j in (a, inr k, d)
        ]),
      )
