-- ===== src/Base/Ordered.antt =====
-- Sorted lists by what their comparator means, and comparators that agree on a list.
use Prim.Native.Nat.{Ordering}
use mathlib.Core.Bool.{Bool, true}
use mathlib.Core.List.{List, [], ◌∷◌}
use mathlib.Core.Logic.{◌≢◌, ◌⊎◌, inl, inr}
use mathlib.Core.Path.{◌≡◌, refl, ap, ◌∙◌, sym, subst}
use native.Mathlib.Omega.{arith}
use woyengi.Base.Lists.{In, All, All-In, keep, last}
use woyengi.Base.Tests.{Bool-cases}
use mathlib.Core.Option.{none, some}
use woyengi.Base.Sort.{
  sort, insert, insert_all, In-insert, In-sort, sort-Sorted, not_after, Sorted, IsComparator,
}

-- Each element stands in the relation to every later one.
abbrev pub Ordered : {A : Type 0} → (A → A → Type 0) → List A → Type 0
Ordered R [] = Unit
Ordered R (x ∷ xs) = All (R x) xs × Ordered R xs

module _ {A : Type 0} (cmp : A → A → Ordering) (P : A → Type 0) (R : A → A → Type 0)
    (reads : (a b : A) → P a → P b → cmp a b ≢ Ordering.gt → R a b) where
  All-not_after :
      (a : A) (xs : List A)
      → P a
      → ((x : A) → In x xs → P x)
      → All (λ y. not_after cmp a y ≡ true) xs
      → All (R a) xs
  All-not_after a [] p f s = tt
  All-not_after a (x ∷ xs) p f (n, s) =
      (reads a x p (f x (inl refl)) (λ g. cc), All-not_after a xs p (λ y i. f y (inr i)) s)

  -- A list that a comparator sorts is ordered by what the comparator means on its elements.
  pub Sorted-Ordered : (xs : List A) → ((x : A) → In x xs → P x) → Sorted cmp xs → Ordered R xs
  Sorted-Ordered [] f s = tt
  Sorted-Ordered (x ∷ xs) f (n, s) = (
    All-not_after x xs (f x (inl refl)) (λ y i. f y (inr i)) n,
    Sorted-Ordered xs (λ y i. f y (inr i)) s,
  )

module _ {A : Type 0} (f g : A → A → Ordering) where
  insert-agree :
      (x : A) (ys : List A) → ((y : A) → In y ys → f y x ≡ g y x) → insert f x ys ≡ insert g x ys
  unfolding insert
  insert-agree x [] e = refl
  insert-agree x (y ∷ ys) e =
      let rest = insert-agree x ys (λ z i. e z (inr i)) in ground (arith, e y (inl refl), rest)

  insert_all-agree :
      (acc xs : List A)
      → ((a b : A) → In a acc ⊎ In a xs → In b xs → f a b ≡ g a b)
      → insert_all f acc xs ≡ insert_all g acc xs
  unfolding insert_all
  insert_all-agree acc [] e = refl
  insert_all-agree acc (x ∷ xs) e =
      insert_all-agree (insert f x acc) xs (λ a b i j. e a b (earlier a i) (inr j))
      ∙ ap (λ l. insert_all g l xs) (insert-agree x acc (λ y i. e y x (inl i) (inl refl)))
    where
      earlier : (a : A) → In a (insert f x acc) ⊎ In a xs → In a acc ⊎ In a (x ∷ xs)
      earlier a (inl i) = elim (In-insert f a x acc i) [ inl q ↦ inr (inl q) | inr j ↦ inl j ]
      earlier a (inr i) = inr (inr i)

  All-agree :
      (a : A) (xs : List A)
      → ((b : A) → In b xs → f a b ≡ g a b)
      → All (λ b. not_after g a b ≡ true) xs
      → All (λ b. not_after f a b ≡ true) xs
  All-agree a [] e s = tt
  All-agree a (x ∷ xs) e (n, s) =
      (ground (arith, e x (inl refl)), All-agree a xs (λ b i. e b (inr i)) s)

  pub Sorted-agree :
      (xs : List A) → ((a b : A) → In a xs → In b xs → f a b ≡ g a b) → Sorted g xs → Sorted f xs
  Sorted-agree [] e s = tt
  Sorted-agree (x ∷ xs) e (n, s) = (
    All-agree x xs (λ b i. e x b (inl refl) (inr i)) n,
    Sorted-agree xs (λ a b i j. e a b (inr i) (inr j)) s,
  )

  -- Two comparators that agree on the elements of a list sort it alike.
  pub sort-agree :
      (xs : List A) → ((a b : A) → In a xs → In b xs → f a b ≡ g a b) → sort f xs ≡ sort g xs
  unfolding sort
  sort-agree xs e =
      insert_all-agree [] xs (λ a b i j. e a b (elim i [ inl k ↦ absurd k | inr k ↦ k ]) j)

-- A list is sorted by a comparator that agrees on its elements with a consistent one.
pub sort-Sorted_agree :
    {A : Type 0} (f g : A → A → Ordering)
    → IsComparator g
    → (xs : List A) → ((a b : A) → In a xs → In b xs → f a b ≡ g a b)
    → Sorted f (sort f xs)
sort-Sorted_agree f g k xs e =
    Sorted-agree f g (sort f xs) (λ a b i j. e a b (In-sort f a xs i) (In-sort f b xs j))
      (subst (Sorted g) (sym (sort-agree f g xs e)) (sort-Sorted k xs))

module _ {A : Type 0} (cmp : A → A → Ordering) where
  All-keep :
      (p : A → Bool) (x : A) (xs : List A)
      → All (λ y. not_after cmp x y ≡ true) xs
      → All (λ y. not_after cmp x y ≡ true) (keep p xs)
  unfolding keep
  All-keep p x [] s = tt
  All-keep p x (y ∷ ys) (n, s) = elim (Bool-cases (p y)) [
    | inl e ↦ rw e (n, All-keep p x ys s)
    | inr e ↦ rw e (All-keep p x ys s)
  ]

  pub Sorted-keep : (p : A → Bool) (xs : List A) → Sorted cmp xs → Sorted cmp (keep p xs)
  unfolding keep
  Sorted-keep p [] s = tt
  Sorted-keep p (x ∷ xs) (n, s) = elim (Bool-cases (p x)) [
    | inl e ↦ rw e (All-keep p x xs n, Sorted-keep p xs s)
    | inr e ↦ rw e (Sorted-keep p xs s)
  ]

-- The last element of a sorted list, if there is one, is one that no element comes after.
pub last-Sorted :
    {A : Type 0} (cmp : A → A → Ordering)
    → IsComparator cmp
    → (xs : List A) → Sorted cmp xs
    → ((last xs ≡ none) × ((x : A) → In x xs → ⊥))
      ⊎ (t : A) × (last xs ≡ some t) × In t xs × ((x : A) → In x xs → not_after cmp x t ≡ true)
unfolding last
last-Sorted cmp k [] s = inl (refl, λ x i. i)
last-Sorted cmp k (x ∷ []) s = inr (
  x,
  refl,
  inl refl,
  (λ y i. elim i [ inl q ↦ rw q (ground (arith, k.flip x x)) | inr j ↦ absurd j ]),
)
last-Sorted cmp k (x ∷ y ∷ ys) (n, s) = elim (last-Sorted cmp k (y ∷ ys) s) [
  | inl (_, empty) ↦ absurd (empty y (inl refl))
  | inr (t, e, i, top) ↦ inr (
    t,
    e,
    inr i,
    (λ z j. elim j [
      | inl q ↦ rw q (All-In (λ z. not_after cmp x z ≡ true) t (y ∷ ys) i n)
      | inr m ↦ top z m
    ]),
  )
]
