-- ===== src/Base/Sort.antt =====
-- `Array.prototype.sort` with a comparator: the stable sort, as insertion of each element behind
-- those that do not compare greater.
use Prim.Native.Nat.{Ordering}
use mathlib.Core.Bool.{Bool, true, false}
use mathlib.Core.List.{List, [], ◌∷◌, ◌++◌, Perm, perm_middle, append-nil, append_assoc}
use mathlib.Core.List.Perm
use mathlib.Core.Logic.{◌⊎◌, inl, inr}
use mathlib.Core.Path.{◌≡◌, refl, sym, ◌∙◌}
use native.Mathlib.Omega.{arith}
use woyengi.Base.Lists.{keep, In, All}
use woyengi.Base.Tests.{Bool-cases}

abbrev pub swap : Ordering → Ordering
swap Ordering.lt = Ordering.gt
swap Ordering.eq = Ordering.eq
swap Ordering.gt = Ordering.lt

-- `cmp(a, b) <= 0`
abbrev pub not_after {ℓ} : {A : Type ℓ} → (A → A → Ordering) → A → A → Bool
not_after cmp a b = elim (cmp a b) [ Ordering.gt ↦ false | _ ↦ true ]

module _ {ℓ} {A : Type ℓ} (cmp : A → A → Ordering) where
  unfoldable pub insert : A → List A → List A
  insert x [] = x ∷ []
  insert x (y ∷ ys) = elim (not_after cmp y x) [ true ↦ y ∷ insert x ys | false ↦ x ∷ y ∷ ys ]

  unfoldable pub insert_all : List A → List A → List A
  insert_all acc [] = acc
  insert_all acc (x ∷ xs) = insert_all (insert x acc) xs

  unfoldable pub sort : List A → List A
  unfolding insert insert_all
  sort xs = insert_all [] xs

  insert_all-append :
      (acc xs ys : List A) → insert_all acc (xs ++ ys) ≡ insert_all (insert_all acc xs) ys
  unfolding insert_all
  insert_all-append acc [] ys = refl
  insert_all-append acc (x ∷ xs) ys = insert_all-append (insert x acc) xs ys

  -- A new last element is inserted into the sorted rest.
  pub sort-append : (xs : List A) (x : A) → sort (xs ++ x ∷ []) ≡ insert x (sort xs)
  unfolding sort
  sort-append xs x = insert_all-append [] xs (x ∷ [])

  pub keep-insert-false :
      (p : A → Bool) (x : A) (ys : List A) → p x ≡ false → keep p (insert x ys) ≡ keep p ys
  unfolding keep insert
  keep-insert-false p x [] h = ground arith
  keep-insert-false p x (y ∷ ys) h = ground (arith, keep-insert-false p x ys)

  pub insert-perm : (x : A) (ys : List A) → Perm (insert x ys) (x ∷ ys)
  unfolding insert
  insert-perm x [] = Perm.refl (x ∷ [])
  insert-perm x (y ∷ ys) = elim (Bool-cases (not_after cmp y x)) [
    | inl e ↦ rw (e, insert) (Perm.trans (Perm.cons y (insert-perm x ys)) (Perm.swap x y ys))
    | inr e ↦ rw (e, insert) (Perm.refl (x ∷ y ∷ ys))
  ]

  insert_all-perm : (acc xs : List A) → Perm (insert_all acc xs) (acc ++ xs)
  unfolding insert_all
  insert_all-perm acc [] = rw append-nil (Perm.refl acc)
  insert_all-perm acc (x ∷ xs) =
      Perm.trans (insert_all-perm (insert x acc) xs) (
        Perm.trans (Perm.append (insert-perm x acc) (Perm.refl xs))
          (Perm.symm (perm_middle acc xs)))

  -- Sorting keeps every element as often as it stands there.
  pub sort-perm : (xs : List A) → Perm (sort xs) xs
  unfolding sort
  sort-perm xs = insert_all-perm [] xs

module _ {A : Type 0} (cmp : A → A → Ordering) where
  pub In-insert : (a x : A) (ys : List A) → In a (insert cmp x ys) → In a (x ∷ ys)
  unfolding insert
  In-insert a x [] i = i
  In-insert a x (y ∷ ys) i = ground (arith, In-insert a x ys)

  In_insert : (a x : A) (ys : List A) → In a (x ∷ ys) → In a (insert cmp x ys)
  unfolding insert
  In_insert a x [] i = i
  In_insert a x (y ∷ ys) i = ground (arith, In_insert a x ys)

  In-insert_all : (a : A) (acc xs : List A) → In a (insert_all cmp acc xs) → In a acc ⊎ In a xs
  unfolding insert_all
  In-insert_all a acc [] i = inl i
  In-insert_all a acc (x ∷ xs) i =
      ground (arith, In-insert_all a (insert cmp x acc) xs i, In-insert a x acc)

  In_insert_all : (a : A) (acc xs : List A) → In a acc ⊎ In a xs → In a (insert_all cmp acc xs)
  unfolding insert_all
  In_insert_all a acc [] i = ground arith
  In_insert_all a acc (x ∷ xs) i =
      In_insert_all a (insert cmp x acc) xs (ground (arith, In_insert a x acc))

  -- A sorted list has the elements of the list.
  pub In-sort : (a : A) (xs : List A) → In a (sort cmp xs) → In a xs
  unfolding sort
  In-sort a xs i = elim (In-insert_all a [] xs i) [ inl j ↦ absurd j | inr j ↦ j ]

  pub In_sort : (a : A) (xs : List A) → In a xs → In a (sort cmp xs)
  unfolding sort
  In_sort a xs i = In_insert_all a [] xs (inr i)

-- What a comparator promises: it is antisymmetric, and "does not come after" is transitive.
pub record IsComparator {A : Type 0} (cmp : A → A → Ordering) : Type 0 where
  pub flip : (a b : A) → cmp b a ≡ swap (cmp a b)
  pub trans :
      (a b c : A) → not_after cmp a b ≡ true → not_after cmp b c ≡ true → not_after cmp a c ≡ true

-- Each element does not come after any later one.
abbrev pub Sorted : {A : Type 0} → (A → A → Ordering) → List A → Type 0
Sorted cmp [] = Unit
Sorted cmp (x ∷ xs) = All (λ y. not_after cmp x y ≡ true) xs × Sorted cmp xs

module _ {A : Type 0} {cmp : A → A → Ordering} (laws : IsComparator cmp) where
  All-insert :
      (z x : A) (ys : List A)
      → not_after cmp z x ≡ true
      → All (λ y. not_after cmp z y ≡ true) ys
      → All (λ y. not_after cmp z y ≡ true) (insert cmp x ys)
  unfolding insert
  All-insert z x [] h k = (h, tt)
  All-insert z x (y ∷ ys) h (p, k) = elim (Bool-cases (not_after cmp y x)) [
    | inl e ↦ rw (e, insert) (p, All-insert z x ys h k)
    | inr e ↦ rw (e, insert) (h, (p, k))
  ]

  All-trans :
      (x y : A) (ys : List A)
      → not_after cmp x y ≡ true
      → All (λ z. not_after cmp y z ≡ true) ys
      → All (λ z. not_after cmp x z ≡ true) ys
  All-trans x y [] h k = tt
  All-trans x y (z ∷ zs) h (p, k) = (laws.trans x y z h p, All-trans x y zs h k)

  insert-Sorted : (x : A) (ys : List A) → Sorted cmp ys → Sorted cmp (insert cmp x ys)
  unfolding insert
  insert-Sorted x [] s = (tt, tt)
  insert-Sorted x (y ∷ ys) (h, s) = elim (Bool-cases (not_after cmp y x)) [
    | inl e ↦ rw (e, insert) (All-insert y x ys e h, insert-Sorted x ys s)
    | inr e ↦
        let k : not_after cmp x y ≡ true = ground (arith, laws.flip y x) in
        rw (e, insert) ((k, All-trans x y ys k h), (h, s))
  ]

  insert_all-Sorted : (acc xs : List A) → Sorted cmp acc → Sorted cmp (insert_all cmp acc xs)
  unfolding insert_all
  insert_all-Sorted acc [] s = s
  insert_all-Sorted acc (x ∷ xs) s = insert_all-Sorted (insert cmp x acc) xs (insert-Sorted x acc s)

  pub sort-Sorted : (xs : List A) → Sorted cmp (sort cmp xs)
  unfolding sort
  sort-Sorted xs = insert_all-Sorted [] xs tt

module _ {A : Type 0} (cmp : A → A → Ordering) where
  insert_last :
      (x : A) (ys : List A)
      → All (λ y. not_after cmp y x ≡ true) ys
      → insert cmp x ys ≡ ys ++ x ∷ []
  unfolding insert
  insert_last x [] h = refl
  insert_last x (y ∷ ys) (p, h) = ground (arith, insert_last x ys h)

  -- Every element of the first list may stand before every element of the second.
  abbrev Before : List A → List A → Type 0
  Before [] ys = Unit
  Before (x ∷ xs) ys = All (λ y. not_after cmp x y ≡ true) ys × Before xs ys

  Before-first :
      (xs ys : List A) (y : A) → Before xs (y ∷ ys) → All (λ x. not_after cmp x y ≡ true) xs
  Before-first [] ys y b = tt
  Before-first (x ∷ xs) ys y ((p, _), b) = (p, Before-first xs ys y b)

  Before-snoc :
      (xs ys : List A) (y : A)
      → Before xs (y ∷ ys)
      → All (λ z. not_after cmp y z ≡ true) ys
      → Before (xs ++ y ∷ []) ys
  Before-snoc [] ys y b h = (h, tt)
  Before-snoc (x ∷ xs) ys y ((_, p), b) h = (p, Before-snoc xs ys y b h)

  insert_all-Sorted' :
      (acc xs : List A) → Before acc xs → Sorted cmp xs → insert_all cmp acc xs ≡ acc ++ xs
  unfolding insert_all
  insert_all-Sorted' acc [] b s = sym (append-nil acc)
  insert_all-Sorted' acc (x ∷ xs) b (h, s) = rw (insert_last x acc (Before-first acc xs x b)) (
      insert_all-Sorted' (acc ++ x ∷ []) xs (Before-snoc acc xs x b h) s
      ∙ append_assoc acc (x ∷ []) xs)

  -- Sorting changes nothing in a sorted list.
  pub sort-Sorted' : (xs : List A) → Sorted cmp xs → sort cmp xs ≡ xs
  unfolding sort
  sort-Sorted' xs s = insert_all-Sorted' [] xs tt s
