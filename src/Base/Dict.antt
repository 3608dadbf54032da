-- ===== src/Base/Dict.antt =====
-- `Map` and `Set` with string keys. A `Map` iterates in the order in which its keys were first
-- set; a `Set` is the list of its members in that order.
use Prim.Native.Nat.{◌≤◌, ◌<◌}
use mathlib.Core.Bool.{Bool, true, false, ◌||◌}
use mathlib.Core.List.{List, [], ◌∷◌, ◌++◌, map}
use mathlib.Core.Logic.{◌≢◌, ◌⊎◌, inl, inr, ite}
use mathlib.Core.Option.{Option, none, some}
use mathlib.Core.Path.{◌≡◌, refl, sym}
use native.Mathlib.Omega.{arith}
use woyengi.Base.Lists.{length, In}
use woyengi.Base.Tests.{is_some, if◌then◌else◌, Bool-cases}
use woyengi.Base.Texts.{Text, text_discrete, same}

-- `new Set(…).has`, and `includes` on an array of strings.
unfoldable pub member : Text → List Text → Bool
member k [] = false
member k (x ∷ xs) = same x k || member k xs

unfoldable pub add : Text → List Text → List Text
unfolding member
add k xs = if member k xs then xs else xs ++ k ∷ []

-- `new Set(xs)`, from the members that are there already.
unfoldable pub add_all : List Text → List Text → List Text
add_all acc [] = acc
add_all acc (x ∷ xs) = add_all (add x acc) xs

abbrev pub Dict {ℓ} : Type ℓ → Type ℓ
Dict V = List (Text × V)

module _ {ℓ} {V : Type ℓ} where
  unfoldable pub get : Text → Dict V → Option V
  get k [] = none
  get k ((j, v) ∷ m) = ite (text_discrete j k) (some v) (get k m)

  abbrev pub has : Text → Dict V → Bool
  has k m = is_some (get k m)

  unfoldable pub set : Text → V → Dict V → Dict V
  set k v [] = (k, v) ∷ []
  set k v ((j, w) ∷ m) = ite (text_discrete j k) ((j, v) ∷ m) ((j, w) ∷ set k v m)

  unfoldable pub delete : Text → Dict V → Dict V
  delete k [] = []
  delete k ((j, w) ∷ m) = ite (text_discrete j k) (delete k m) ((j, w) ∷ delete k m)

  abbrev pub keys : Dict V → List Text
  keys m = map (λ e. e.0) m

  abbrev pub values : Dict V → List V
  values m = map (λ e. e.1) m

  pub get-set :
      (k j : Text) (v : V) (m : Dict V)
      → get j (set k v m) ≡ ite (text_discrete k j) (some v) (get j m)
  unfolding get set
  get-set k j v [] = refl
  get-set k j v ((i, w) ∷ m) = ground (arith, get-set k j v m)

  pub get-set_self : (k : Text) (v : V) (m : Dict V) → get k (set k v m) ≡ some v
  get-set_self k v m = ground (arith, get-set k k v m)

  pub get-set_ne : (k j : Text) (v : V) (m : Dict V) → k ≢ j → get j (set k v m) ≡ get j m
  get-set_ne k j v m h = ground (arith, get-set k j v m)

  pub get-delete :
      (k j : Text) (m : Dict V) → get j (delete k m) ≡ ite (text_discrete k j) none (get j m)
  unfolding get delete
  get-delete k j [] = ground arith
  get-delete k j ((i, w) ∷ m) = ground (arith, get-delete k j m)

  pub length-delete-le : (k : Text) (m : Dict V) → length (delete k m) ≤ length m
  unfolding delete
  length-delete-le k [] = omega arith
  length-delete-le k ((i, w) ∷ m) = ground (arith, length-delete-le k m)

  pub length-delete-lt :
      (k : Text) (m : Dict V) (v : V) → get k m ≡ some v → length (delete k m) < length m
  unfolding get delete
  length-delete-lt k [] v h = cc
  length-delete-lt k ((i, w) ∷ m) v h = ground (arith, length-delete-lt k m v, length-delete-le k m)

  -- A key that is not there yet goes to the end.
  pub set_new : (k : Text) (v : V) (m : Dict V) → get k m ≡ none → set k v m ≡ m ++ (k, v) ∷ []
  unfolding get set
  set_new k v [] h = refl
  set_new k v ((i, w) ∷ m) h = ground (arith, set_new k v m)

module _ {V : Type 0} where
  pub get-In : (k : Text) (v : V) (m : Dict V) → get k m ≡ some v → In v (values m)
  unfolding get
  get-In k v [] h = cc
  get-In k v ((i, w) ∷ m) h = elim (text_discrete i k) [
    | yes p ↦ inl (ground arith)
    | no p ↦ inr (get-In k v m (ground arith))
  ]

  pub get-In_entry : (k : Text) (v : V) (m : Dict V) → get k m ≡ some v → In (k, v) m
  unfolding get
  get-In_entry k v [] h = cc
  get-In_entry k v ((i, w) ∷ m) h = elim (text_discrete i k) [
    | yes p ↦ inl (ground arith)
    | no p ↦ inr (get-In_entry k v m (ground arith))
  ]

  pub In_values-set :
      (u : V) (k : Text) (v : V) (m : Dict V)
      → In u (values (set k v m))
      → (u ≡ v) ⊎ In u (values m)
  unfolding set
  In_values-set u k v [] i = ground arith
  In_values-set u k v ((i', w) ∷ m) i = ground (arith, In_values-set u k v m)

pub member-add : (k j : Text) (xs : List Text) → member j (add k xs) ≡ (same k j || member j xs)
unfolding add member
member-add k j xs = elim (Bool-cases (member k xs)) [
  | inl e ↦
      rw e (elim (text_discrete k j) [ yes p ↦ rw (sym p) (ground arith) | no p ↦ ground arith ])
  | inr e ↦ rw e (at_end xs)
]
  where
    at_end : (ys : List Text) → member j (ys ++ k ∷ []) ≡ (same k j || member j ys)
    at_end [] = ground arith
    at_end (y ∷ ys) = ground (arith, at_end ys)

pub member-In : (k : Text) (xs : List Text) → member k xs ≡ true → In k xs
unfolding member
member-In k [] h = cc
member-In k (x ∷ xs) h = elim (text_discrete x k) [
  | yes p ↦ inl (sym p)
  | no p ↦ inr (member-In k xs (ground arith))
]

pub member_of_In : (k : Text) (xs : List Text) → In k xs → member k xs ≡ true
unfolding member
member_of_In k [] i = absurd i
member_of_In k (x ∷ xs) (inl e) = ground arith
member_of_In k (x ∷ xs) (inr i) = ground (arith, member_of_In k xs i)
