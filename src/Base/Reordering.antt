-- ===== src/Base/Reordering.antt =====
-- Sorting forgets the order of its input where the comparator tells different elements apart.
use Prim.Native.Nat.{Ordering}
use mathlib.Core.List.{List, [], ◌∷◌}
use mathlib.Core.Logic.{inl, inr}
use mathlib.Core.Path.{◌≡◌, refl, sym, ◌∙◌, ap}
use native.Mathlib.Omega.{arith}
use woyengi.Base.Lists.{In}
use woyengi.Base.Sort.{insert, insert_all, sort, IsComparator}

-- The same elements, each as often, in another order.
pub data Reordered {A : Type 0} : List A → List A → Type 0 where
  kept : (xs : List A) → Reordered xs xs
  below : (x : A) (xs ys : List A) → Reordered xs ys → Reordered (x ∷ xs) (x ∷ ys)
  exchanged : (x y : A) (xs : List A) → Reordered (x ∷ y ∷ xs) (y ∷ x ∷ xs)
  chained : (xs ys zs : List A) → Reordered xs ys → Reordered ys zs → Reordered xs zs

-- The comparator finds two elements of the list equal only where they are the same.
abbrev pub TellsApart : {A : Type 0} → (A → A → Ordering) → List A → Type 0
TellsApart {A} cmp xs = (a b : A) → In a xs → In b xs → cmp a b ≡ Ordering.eq → a ≡ b

module _ {A : Type 0} (cmp : A → A → Ordering) (laws : IsComparator cmp) where
  insert_exchange :
      (x y : A) (zs : List A)
      → cmp x y ≡ Ordering.lt
      → insert cmp x (insert cmp y zs) ≡ insert cmp y (insert cmp x zs)
  unfolding insert
  insert_exchange x y [] lt = ground (arith, laws.flip x y)
  insert_exchange x y (z ∷ zs) lt = ground (
    arith,
    insert_exchange x y zs lt,
    laws.flip x y,
    laws.flip y z,
    laws.flip x z,
    laws.trans x y z,
    laws.trans z x y,
    laws.trans y z x,
  )

  insert_comm :
      (x y : A) (zs : List A)
      → (cmp x y ≡ Ordering.eq → x ≡ y)
      → insert cmp x (insert cmp y zs) ≡ insert cmp y (insert cmp x zs)
  insert_comm x y zs f = by_order (cmp x y) refl
    where
      by_order :
          (o : Ordering)
          → cmp x y ≡ o
          → insert cmp x (insert cmp y zs) ≡ insert cmp y (insert cmp x zs)
      by_order Ordering.lt e = insert_exchange x y zs e
      by_order Ordering.eq e = let q = f e in rw q refl
      by_order Ordering.gt e = sym (insert_exchange y x zs (let k = laws.flip x y in rw e at k))

  In-Reordered : (a : A) (xs ys : List A) → Reordered xs ys → In a ys → In a xs
  In-Reordered a xs _ (kept _) i = i
  In-Reordered a _ _ (below x xs ys r) (inl e) = inl e
  In-Reordered a _ _ (below x xs ys r) (inr i) = inr (In-Reordered a xs ys r i)
  In-Reordered a _ _ (exchanged x y xs) (inl e) = inr (inl e)
  In-Reordered a _ _ (exchanged x y xs) (inr (inl e)) = inl e
  In-Reordered a _ _ (exchanged x y xs) (inr (inr i)) = inr (inr i)
  In-Reordered a _ _ (chained xs ys zs r s) i = In-Reordered a xs ys r (In-Reordered a ys zs s i)

  insert_all-Reordered :
      (acc xs ys : List A)
      → Reordered xs ys
      → TellsApart cmp xs
      → insert_all cmp acc xs ≡ insert_all cmp acc ys
  unfolding insert_all
  insert_all-Reordered acc xs _ (kept _) t = refl
  insert_all-Reordered acc _ _ (below x xs ys r) t =
      insert_all-Reordered (insert cmp x acc) xs ys r (λ a b i j. t a b (inr i) (inr j))
  insert_all-Reordered acc _ _ (exchanged x y xs) t =
      ap (λ z. insert_all cmp z xs) (sym (insert_comm x y acc (t x y (inl refl) (inr (inl refl)))))
  insert_all-Reordered acc _ _ (chained xs ys zs r s) t =
      insert_all-Reordered acc xs ys r t
      ∙ insert_all-Reordered acc ys zs s
          (λ a b i j. t a b (In-Reordered a xs ys r i) (In-Reordered b xs ys r j))

  pub sort-Reordered :
      (xs ys : List A) → Reordered xs ys → TellsApart cmp xs → sort cmp xs ≡ sort cmp ys
  unfolding sort
  sort-Reordered xs ys r t = insert_all-Reordered [] xs ys r t
