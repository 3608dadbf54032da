-- ===== src/Base/Uniques.antt =====
-- Lists in which no element stands twice.
use Prim.Native.Nat.{Ordering}
use mathlib.Core.List.{List, [], ◌∷◌, ◌++◌}
use mathlib.Core.Logic.{◌⊎◌, inl, inr}
use mathlib.Core.Path.{◌≡◌, refl, sym}
use mathlib.Core.Bool.{false}
use native.Mathlib.Omega.{arith}
use woyengi.Base.Dict.{member, add, add_all, member_of_In, member-In}
use woyengi.Base.Lists.{In, In-append, In_append_left, In_append_right}
use woyengi.Base.Sort.{insert, insert_all, sort, not_after, In-insert}
use woyengi.Base.Tests.{Bool-cases}
use woyengi.Base.Texts.{Text}

module _ {A : Type 0} where
  abbrev pub Distinct : List A → Type 0
  Distinct [] = Unit
  Distinct (x ∷ xs) = (In x xs → ⊥) × Distinct xs

  pub Distinct-snoc : (xs : List A) (x : A) → Distinct xs → (In x xs → ⊥) → Distinct (xs ++ x ∷ [])
  Distinct-snoc [] x d n = ((λ i. i), tt)
  Distinct-snoc (y ∷ ys) x (f, d) n = (
    (λ i. elim (In-append y ys (x ∷ []) i) [
      | inl j ↦ f j
      | inr j ↦ elim j [ inl e ↦ n (inl (sym e)) | inr k ↦ k ]
    ]),
    Distinct-snoc ys x d (λ i. n (inr i)),
  )

  insert-Distinct :
      (cmp : A → A → Ordering) (x : A) (ys : List A)
      → Distinct ys
      → (In x ys → ⊥)
      → Distinct (insert cmp x ys)
  unfolding insert
  insert-Distinct cmp x [] d n = (n, tt)
  insert-Distinct cmp x (y ∷ ys) (f, d) n = elim (Bool-cases (not_after cmp y x)) [
    | inl e ↦ rw (e, insert) (apart, insert-Distinct cmp x ys d (λ i. n (inr i)))
    | inr e ↦ rw (e, insert) (n, (f, d))
  ]
    where
      apart : In y (insert cmp x ys) → ⊥
      apart i = elim (In-insert cmp y x ys i) [ inl e ↦ n (inl (sym e)) | inr j ↦ f j ]

  insert_all-Distinct :
      (cmp : A → A → Ordering) (acc xs : List A)
      → Distinct acc
      → Distinct xs
      → ((a : A) → In a acc → In a xs → ⊥)
      → Distinct (insert_all cmp acc xs)
  unfolding insert_all
  insert_all-Distinct cmp acc [] d e f = d
  insert_all-Distinct cmp acc (x ∷ xs) d (n, e) f =
      insert_all-Distinct cmp (insert cmp x acc) xs
        (insert-Distinct cmp x acc d (λ i. f x i (inl refl))) e
        (λ a i j. elim (In-insert cmp a x acc i) [ inl q ↦ n (rw (← q) j) | inr k ↦ f a k (inr j) ])

  -- Sorting a list without repetition leaves it without repetition.
  pub sort-Distinct : (cmp : A → A → Ordering) (xs : List A) → Distinct xs → Distinct (sort cmp xs)
  unfolding sort
  sort-Distinct cmp xs d = insert_all-Distinct cmp [] xs tt d (λ a i j. i)

member-false : (k : Text) (xs : List Text) → member k xs ≡ false → In k xs → ⊥
member-false k xs h i = cc (member_of_In k xs i)

add-Distinct : (k : Text) (xs : List Text) → Distinct xs → Distinct (add k xs)
unfolding add
add-Distinct k xs d = elim (Bool-cases (member k xs)) [
  | inl e ↦ rw e d
  | inr e ↦ rw e (Distinct-snoc xs k d (member-false k xs e))
]

-- `[...new Set(xs)]` has no element twice.
pub add_all-Distinct : (acc xs : List Text) → Distinct acc → Distinct (add_all acc xs)
unfolding add_all
add_all-Distinct acc [] d = d
add_all-Distinct acc (x ∷ xs) d = add_all-Distinct (add x acc) xs (add-Distinct x acc d)

In-add : (j k : Text) (xs : List Text) → In j (add k xs) → (j ≡ k) ⊎ In j xs
unfolding add
In-add j k xs i = elim (Bool-cases (member k xs)) [
  | inl e ↦ inr (rw e at i)
  | inr e ↦ elim (In-append j xs (k ∷ []) (rw e at i)) [ inl a ↦ inr a | inr b ↦ ground arith ]
]

In_add : (j k : Text) (xs : List Text) → (j ≡ k) ⊎ In j xs → In j (add k xs)
unfolding add
In_add j k xs i = elim (Bool-cases (member k xs)) [
  | inl e ↦ rw e (elim i [ inl q ↦ rw q (member-In k xs e) | inr a ↦ a ])
  | inr e ↦ rw e (elim i [
    | inl q ↦ In_append_right j xs (k ∷ []) (inl q)
    | inr a ↦ In_append_left j xs (k ∷ []) a
  ])
]

-- And it has the elements of `xs`.
pub In-add_all : (j : Text) (acc xs : List Text) → In j (add_all acc xs) → In j acc ⊎ In j xs
unfolding add_all
In-add_all j acc [] i = inl i
In-add_all j acc (x ∷ xs) i = elim (In-add_all j (add x acc) xs i) [
  | inl a ↦ ground (arith, In-add j x acc)
  | inr b ↦ inr (inr b)
]

pub In_add_all : (j : Text) (acc xs : List Text) → In j acc ⊎ In j xs → In j (add_all acc xs)
unfolding add_all
In_add_all j acc [] i = ground arith
In_add_all j acc (x ∷ xs) i = In_add_all j (add x acc) xs (ground (arith, In_add j x acc))
