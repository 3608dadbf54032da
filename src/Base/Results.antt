-- ===== src/Base/Results.antt =====
-- Thrown errors as values: the error's class and its message.
use mathlib.Core.Bool.{Bool, true, false}
use mathlib.Core.List.{List, [], ◌∷◌}
use mathlib.Core.Logic.{◌⊎◌, inl, inr}
use mathlib.Core.Path.{◌≡◌, refl, subst}
use woyengi.Base.Texts.{Text}

pub data ErrorClass : Type 0 where
  plain_error type_error range_error uri_error : ErrorClass

pub data Result {ℓ} (A : Type ℓ) : Type ℓ where
  ok : A → Result A
  raise : ErrorClass → Text → Result A

module _ {ℓ κ} {X : Type ℓ} {Y : Type κ} where
  infixl 5 ◌>>=◌
  abbrev pub ◌>>=◌ : Result X → (X → Result Y) → Result Y
  ok x >>= next = next x
  raise c message >>= next = raise c message

  -- What follows in a chain that returned: the first part returned as well.
  pub >>=-eq-ok :
      (r : Result X) (next : X → Result Y) {y : Y}
      → (r >>= next) ≡ ok y
      → (x : X) × (r ≡ ok x) × (next x ≡ ok y)
  >>=-eq-ok (raise c message) next e = cc
  >>=-eq-ok (ok x) next e = (x, refl, e)

-- `if (test) throw new C(message)`
abbrev pub throw_if : Bool → ErrorClass → Text → Result (Unit {0})
throw_if true c m = raise c m
throw_if false c m = ok tt

-- The statements after one that only may throw.
infixl 5 ◌>>◌
abbrev pub ◌>>◌ {ℓ} : {Y : Type ℓ} → Result (Unit {0}) → Result Y → Result Y
first_part >> rest = first_part >>= λ _. rest

-- `values.map(f)` where `f` may throw.
unfoldable pub map_result {ℓ κ} :
    {X : Type ℓ} {Y : Type κ} → (X → Result Y) → List X → Result (List Y)
map_result f [] = ok []
map_result f (x ∷ xs) = do y ← f x; ys ← map_result f xs; ok (y ∷ ys)

pub throw_if-eq-ok :
    (b : Bool) (c : ErrorClass) (m : Text) {u : Unit {0}} → throw_if b c m ≡ ok u → b ≡ false
throw_if-eq-ok true c m h = cc
throw_if-eq-ok false c m h = refl

pub Result-cases {ℓ} :
    {A : Type ℓ} (m : Result A)
    → ((a : A) × (m ≡ ok a)) ⊎ ((c : ErrorClass) × (t : Text) × (m ≡ raise c t))
Result-cases (ok a) = inl (a, refl)
Result-cases (raise c t) = inr (c, t, refl)

-- A guard that did not throw was false, and what follows it returned.
pub throw_if->>-eq-ok {ℓ} :
    {B : Type ℓ} (b : Bool) (c : ErrorClass) (m : Text) (k : Result B) {y : B}
    → (throw_if b c m >> k) ≡ ok y
    → (b ≡ false) × (k ≡ ok y)
throw_if->>-eq-ok true c m k h = cc
throw_if->>-eq-ok false c m k h = (refl, h)

pub ok-injective {ℓ} : {A : Type ℓ} {a b : A} → ok a ≡ ok b → a ≡ b
ok-injective h = cc

-- What holds of the value of a computation, if it returns one.
unfoldable pub Returns {ℓ κ} : {A : Type ℓ} → (A → Type κ) → Result A → Type κ
Returns Q (ok a) = Q a
Returns Q (raise c m) = Unit

pub ok-Returns {ℓ κ} : {A : Type ℓ} (Q : A → Type κ) (a : A) → Q a → Returns Q (ok a)
unfolding Returns
ok-Returns Q a q = q

pub raise-Returns {ℓ κ} :
    {A : Type ℓ} (Q : A → Type κ) (c : ErrorClass) (m : Text) → Returns Q (raise c m)
unfolding Returns
raise-Returns Q c m = tt

pub value-Returns {ℓ κ} :
    {A : Type ℓ} (Q : A → Type κ) (r : Result A) (a : A) → Returns Q r → r ≡ ok a → Q a
unfolding Returns
value-Returns Q r a q e = subst (Returns Q) e q

-- In a chain, what is known of the first part's value is known in the rest.
pub >>=-Returns {ℓ κ μ} :
    {X : Type ℓ} {Y : Type κ} (Q : Y → Type μ) (r : Result X) (next : X → Result Y)
    → ((x : X) → r ≡ ok x → Returns Q (next x))
    → Returns Q (r >>= next)
unfolding Returns
>>=-Returns Q (ok x) next k = k x refl
>>=-Returns Q (raise c m) next k = tt

pub throw_if-Returns {κ} :
    (Q : Unit {0} → Type κ) (b : Bool) (c : ErrorClass) (m : Text)
    → (b ≡ false → Q tt)
    → Returns Q (throw_if b c m)
unfolding Returns
throw_if-Returns Q true c m k = tt
throw_if-Returns Q false c m k = k refl
