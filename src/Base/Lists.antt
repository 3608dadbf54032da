-- ===== src/Base/Lists.antt =====
-- Lists measured and searched with native numbers and Boolean tests.
use Prim.Native.Nat.{ℕ, suc, ◌+◌, ◌≤◌}
use mathlib.Core.Bool.{Bool, true, false, ◌&&◌, ◌||◌}
use mathlib.Core.List.{List, [], ◌∷◌, ◌++◌, map}
use mathlib.Core.Logic.{◌⊎◌, inl, inr}
use mathlib.Core.Option.{Option, none, some}
use mathlib.Core.Path.{◌≡◌, refl, ap}
use native.Mathlib.Omega.{arith}
use woyengi.Base.Tests.{Bool-cases, if◌then◌else◌}

module _ {ℓ} {A : Type ℓ} where
  abbrev pub length : List A → ℕ
  length [] = 0
  length (x ∷ xs) = suc (length xs)

  pub length-append : (xs ys : List A) → length (xs ++ ys) ≡ length xs + length ys
  length-append [] ys = omega arith
  length-append (x ∷ xs) ys = omega (arith, length-append xs ys)

  -- `xs.filter(p)`
  unfoldable pub keep : (A → Bool) → List A → List A
  keep p [] = []
  keep p (x ∷ xs) = if p x then x ∷ keep p xs else keep p xs

  -- `xs.some(p)`
  unfoldable pub any : (A → Bool) → List A → Bool
  any p [] = false
  any p (x ∷ xs) = p x || any p xs

  -- `xs.every(p)`
  unfoldable pub all : (A → Bool) → List A → Bool
  all p [] = true
  all p (x ∷ xs) = p x && all p xs

  -- `xs.find(p)`
  unfoldable pub find : (A → Bool) → List A → Option A
  find p [] = none
  find p (x ∷ xs) = if p x then some x else find p xs

  -- `xs.at(-1)`
  unfoldable pub last : List A → Option A
  last [] = none
  last (x ∷ []) = some x
  last (x ∷ y ∷ ys) = last (y ∷ ys)

  -- `xs[0]`
  abbrev pub first : List A → Option A
  first [] = none
  first (x ∷ xs) = some x

  pub length-keep-le : (p : A → Bool) (xs : List A) → length (keep p xs) ≤ length xs
  unfolding keep
  length-keep-le p [] = omega arith
  length-keep-le p (x ∷ xs) = ground (arith, length-keep-le p xs)

  pub keep-append : (p : A → Bool) (xs ys : List A) → keep p (xs ++ ys) ≡ keep p xs ++ keep p ys
  unfolding keep
  keep-append p [] ys = refl
  keep-append p (x ∷ xs) ys = ground (arith, keep-append p xs ys)

module _ {ℓ κ} {A : Type ℓ} (P : A → Type κ) where
  abbrev pub All : List A → Type κ
  All [] = Unit
  All (x ∷ xs) = P x × All xs

  pub All-append : (xs ys : List A) → All xs → All ys → All (xs ++ ys)
  All-append [] ys _ k = k
  All-append (x ∷ xs) ys (p, h) k = (p, All-append xs ys h k)

  pub keep-All : (q : A → Bool) (xs : List A) → All xs → All (keep q xs)
  unfolding keep
  keep-All q [] _ = tt
  keep-All q (x ∷ xs) (p, h) = elim (Bool-cases (q x)) [
    | inl e ↦ rw e (p, keep-All q xs h)
    | inr e ↦ rw e (keep-All q xs h)
  ]

-- Membership, as the position of an equal element.
module _ {A : Type 0} where
  abbrev pub In : A → List A → Type 0
  In a [] = ⊥
  In a (x ∷ xs) = (a ≡ x) ⊎ In a xs

  pub In_append_left : (a : A) (xs ys : List A) → In a xs → In a (xs ++ ys)
  In_append_left a [] ys i = absurd i
  In_append_left a (x ∷ xs) ys (inl e) = inl e
  In_append_left a (x ∷ xs) ys (inr i) = inr (In_append_left a xs ys i)

  pub In_append_right : (a : A) (xs ys : List A) → In a ys → In a (xs ++ ys)
  In_append_right a [] ys i = i
  In_append_right a (x ∷ xs) ys i = inr (In_append_right a xs ys i)

  pub In-append : (a : A) (xs ys : List A) → In a (xs ++ ys) → In a xs ⊎ In a ys
  In-append a [] ys i = inr i
  In-append a (x ∷ xs) ys (inl e) = inl (inl e)
  In-append a (x ∷ xs) ys (inr i) = elim (In-append a xs ys i) [
    | inl j ↦ inl (inr j)
    | inr j ↦ inr j
  ]

  pub All-In {κ} : (P : A → Type κ) (a : A) (xs : List A) → In a xs → All P xs → P a
  All-In P a [] i _ = absurd i
  All-In P a (x ∷ xs) (inl e) (p, _) = rw e p
  All-In P a (x ∷ xs) (inr i) (_, h) = All-In P a xs i h

  pub All-of_In {κ} : (P : A → Type κ) (xs : List A) → ((a : A) → In a xs → P a) → All P xs
  All-of_In P [] f = tt
  All-of_In P (x ∷ xs) f = (f x (inl refl), All-of_In P xs (λ a i. f a (inr i)))

  -- An element stands in the kept part exactly when it stands in the list and passes the test.
  pub In_keep : (p : A → Bool) (a : A) (xs : List A) → In a xs → p a ≡ true → In a (keep p xs)
  unfolding keep
  In_keep p a [] i h = absurd i
  In_keep p a (x ∷ xs) (inl e) h = let k : p x ≡ true = rw (← e) h in rw k (inl e)
  In_keep p a (x ∷ xs) (inr i) h = elim (Bool-cases (p x)) [
    | inl e ↦ rw e (inr (In_keep p a xs i h))
    | inr e ↦ rw e (In_keep p a xs i h)
  ]

  kept_here :
      (p : A → Bool) (a x : A) (xs : List A)
      → p x ≡ true
      → (In a (keep p xs) → In a xs × (p a ≡ true))
      → In a (x ∷ keep p xs)
      → In a (x ∷ xs) × (p a ≡ true)
  kept_here p a x xs e f (inl q) = (inl q, rw q e)
  kept_here p a x xs e f (inr j) = let (k, h) = f j in (inr k, h)

  pub In-keep : (p : A → Bool) (a : A) (xs : List A) → In a (keep p xs) → In a xs × (p a ≡ true)
  unfolding keep
  In-keep p a [] i = absurd i
  In-keep p a (x ∷ xs) i = elim (Bool-cases (p x)) [
    | inl e ↦ kept_here p a x xs e (In-keep p a xs) (rw e at i)
    | inr e ↦ let (j, h) = In-keep p a xs (rw e at i) in (inr j, h)
  ]

  -- `some` finds a witness, and any witness makes it true.
  pub any-true : (p : A → Bool) (xs : List A) → any p xs ≡ true → (a : A) × In a xs × (p a ≡ true)
  unfolding any
  any-true p [] h = cc
  any-true p (x ∷ xs) h = elim (Bool-cases (p x)) [
    | inl e ↦ (x, inl refl, e)
    | inr e ↦ let (a, i, k) = any-true p xs (ground arith) in (a, inr i, k)
  ]

  pub any_of_In : (p : A → Bool) (a : A) (xs : List A) → In a xs → p a ≡ true → any p xs ≡ true
  unfolding any
  any_of_In p a [] i h = absurd i
  any_of_In p a (x ∷ xs) (inl e) h = let k : p x ≡ true = rw (← e) h in rw k
  any_of_In p a (x ∷ xs) (inr i) h = ground (arith, any_of_In p a xs i h)

  pub all-In : (p : A → Bool) (a : A) (xs : List A) → In a xs → all p xs ≡ true → p a ≡ true
  unfolding all
  all-In p a [] i h = absurd i
  all-In p a (x ∷ xs) (inl e) h = rw e (ground arith)
  all-In p a (x ∷ xs) (inr i) h = all-In p a xs i (ground arith)

  pub all_of_In : (p : A → Bool) (xs : List A) → ((a : A) → In a xs → p a ≡ true) → all p xs ≡ true
  unfolding all
  all_of_In p [] f = refl
  all_of_In p (x ∷ xs) f = ground (arith, f x (inl refl), all_of_In p xs (λ a i. f a (inr i)))

module _ {A B : Type 0} (f : A → B) where
  pub In_map : (a : A) (xs : List A) → In a xs → In (f a) (map f xs)
  In_map a [] i = absurd i
  In_map a (x ∷ xs) (inl e) = inl (ap f e)
  In_map a (x ∷ xs) (inr i) = inr (In_map a xs i)

  pub In-map : (b : B) (xs : List A) → In b (map f xs) → (a : A) × In a xs × (b ≡ f a)
  In-map b [] i = absurd i
  In-map b (x ∷ xs) (inl e) = (x, inl refl, e)
  In-map b (x ∷ xs) (inr i) = let (a, j, e) = In-map b xs i in (a, inr j, e)
