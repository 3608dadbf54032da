-- ===== src/Base/Programs.antt =====
-- Methods that change the state before they may throw: a program returns the state that it left
-- beside its result, so what it did before an error stays.
use mathlib.Core.Bool.{Bool}
use woyengi.Base.Results.{Result, ok, raise, ErrorClass, throw_if}
use mathlib.Core.Path.{◌≡◌, refl, subst}
use woyengi.Base.Texts.{Text}

abbrev pub Program {ℓ κ} : Type ℓ → Type κ → Type (ℓ ⊔ κ)
Program S A = S → S × Result A

unfoldable pub continue {ℓ κ μ} :
    {S : Type ℓ} {A : Type κ} {B : Type μ} → S × Result A → (A → Program S B) → S × Result B
continue (s, ok a) next = next a s
continue (s, raise c m) next = (s, raise c m)

infixl 5 ◌>>=◌ ◌>>◌
abbrev pub ◌>>=◌ {ℓ κ μ} :
    {S : Type ℓ} {A : Type κ} {B : Type μ} → Program S A → (A → Program S B) → Program S B
(p >>= next) s = continue (p s) next

abbrev pub ◌>>◌ {ℓ κ} : {S : Type ℓ} {B : Type κ} → Program S (Unit {0}) → Program S B → Program S B
p >> rest = p >>= λ _. rest

-- A computation that does not touch the state.
abbrev pub attempt {ℓ κ} : {S : Type ℓ} {A : Type κ} → Result A → Program S A
attempt r s = (s, r)

abbrev pub finish {ℓ κ} : {S : Type ℓ} {A : Type κ} → A → Program S A
finish a s = (s, ok a)

abbrev pub refuse_if {ℓ} : {S : Type ℓ} → Bool → ErrorClass → Text → Program S (Unit {0})
refuse_if test c m s = (s, throw_if test c m)

abbrev pub current {ℓ} : {S : Type ℓ} → Program S S
current s = (s, ok s)

abbrev pub change {ℓ} : {S : Type ℓ} → (S → S) → Program S (Unit {0})
change f s = (f s, ok tt)

-- What holds of the state and the value of a program that succeeds.
unfoldable pub Ensures {ℓ μ ν} :
    {S : Type ℓ} {B : Type μ} → (S → B → Type ν) → S × Result B → Type ν
Ensures Q (s, ok b) = Q s b
Ensures Q (s, raise c m) = Unit

pub ensured {ℓ μ ν} :
    {S : Type ℓ} {B : Type μ} (Q : S → B → Type ν) (p : S × Result B) (t : S) (b : B)
    → Ensures Q p
    → p ≡ (t, ok b)
    → Q t b
unfolding Ensures
ensured Q p t b h k = subst (Ensures Q) k h

pub finish-Ensures {ℓ μ ν} :
    {S : Type ℓ} {B : Type μ} (Q : S → B → Type ν) (s : S) (b : B) → Q s b → Ensures Q (finish b s)
unfolding Ensures
finish-Ensures Q s b h = h

module _ {ℓ κ μ ν} {S : Type ℓ} {A : Type κ} {B : Type μ} (Q : S → B → Type ν) where
  pub continue-Ensures :
      (p : S × Result A) (next : A → Program S B)
      → ((s : S) (a : A) → Ensures Q (next a s))
      → Ensures Q (continue p next)
  unfolding Ensures continue
  continue-Ensures (s, ok a) next h = h s a
  continue-Ensures (s, raise c m) next h = tt

  -- The first part leaves the state alone.
  pub attempt-Ensures :
      (s : S) (r : Result A) (next : A → Program S B)
      → ((a : A) → r ≡ ok a → Ensures Q (next a s))
      → Ensures Q (continue (s, r) next)
  unfolding Ensures continue
  attempt-Ensures s (ok a) next h = h a refl
  attempt-Ensures s (raise c m) next h = tt

module _ {ℓ μ ν} {S : Type ℓ} {B : Type μ} where
  pub current-Ensures :
      (Q : S → B → Type ν) (s : S) (next : S → Program S B)
      → Ensures Q (next s s)
      → Ensures Q (continue (current s) next)
  unfolding continue
  current-Ensures Q s next h = h

  pub current-keeps :
      (I : S → Type ν) (s : S) (next : S → Program S B)
      → I (next s s).0
      → I (continue (current s) next).0
  unfolding continue
  current-keeps I s next h = h

  pub change-keeps :
      (I : S → Type ν) (t : S) (next : Unit {0} → Program S B)
      → I (next tt t).0
      → I (continue {A = Unit {0}} (t, ok tt) next).0
  unfolding continue
  change-keeps I t next h = h

module _ {ℓ κ μ ν} {S : Type ℓ} {A : Type κ} {B : Type μ} (I : S → Type ν) where
  -- What holds of the state that a program leaves, an error or not.
  pub continue-keeps :
      (p : S × Result A) (next : A → Program S B)
      → I p.0
      → ((s : S) (a : A) → I s → I (next a s).0)
      → I (continue p next).0
  unfolding continue
  continue-keeps (s, ok a) next i h = h s a i
  continue-keeps (s, raise c m) next i h = i

  -- The same with more known between the parts.
  pub continue-establishes {ξ} :
      (J : S → Type ξ) (p : S × Result A) (next : A → Program S B)
      → ((s : S) → J s → I s)
      → J p.0
      → ((s : S) (a : A) → J s → I (next a s).0)
      → I (continue p next).0
  unfolding continue
  continue-establishes J (s, ok a) next weaken j h = h s a j
  continue-establishes J (s, raise c m) next weaken j h = weaken s j

  pub attempt-keeps :
      (s : S) (r : Result A) (next : A → Program S B)
      → I s
      → ((a : A) → r ≡ ok a → I (next a s).0)
      → I (continue (s, r) next).0
  unfolding continue
  attempt-keeps s (ok a) next i h = h a refl
  attempt-keeps s (raise c m) next i h = i
