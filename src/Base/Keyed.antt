-- ===== src/Base/Keyed.antt =====
-- Maps in which two related values stand under one key.
use mathlib.Core.Logic.{◌≢◌}
use mathlib.Core.Option.{some}
use mathlib.Core.Path.{◌≡◌, sym, ◌∙◌, subst}
use woyengi.Base.Dict.{Dict, get, set, get-set_self, get-set_ne}
use woyengi.Base.Texts.{Text, text_discrete}

module _ {V : Type 0} (R : V → V → Type 0) where
  abbrev pub IsUnique : Dict V → Type 0
  IsUnique d = (j k : Text) (v w : V) → get j d ≡ some v → get k d ≡ some w → R v w → j ≡ k

  some-eq : {a b : V} → some a ≡ some b → a ≡ b
  some-eq h = cc

  -- A value is set whose relations to the others hold of no one, or only under its key.
  pub set-IsUnique :
      (k : Text) (v : V) (d : Dict V)
      → ((v w : V) → R v w → R w v)
      → ((j : Text) (w : V) → get j d ≡ some w → k ≢ j → R w v → ⊥)
      → IsUnique d
      → IsUnique (set k v d)
  set-IsUnique k v d flip new unique i j a b g e h = elim (text_discrete k i) [
    | yes p ↦ elim (text_discrete k j) [
      | yes q ↦ sym p ∙ q
      | no n ↦
          absurd
            (new j b (sym (get-set_ne k j v d n) ∙ e) n (subst (R b) (at i a p g) (flip a b h)))
    ]
    | no m ↦ elim (text_discrete k j) [
      | yes q ↦ absurd (new i a (sym (get-set_ne k i v d m) ∙ g) m (subst (R a) (at j b q e) h))
      | no n ↦ unique i j a b (sym (get-set_ne k i v d m) ∙ g) (sym (get-set_ne k j v d n) ∙ e) h
    ]
  ]
    where
      at : (x : Text) (c : V) → k ≡ x → get x (set k v d) ≡ some c → c ≡ v
      at x c p found =
          some-eq (sym (subst (λ y. get y (set k v d) ≡ some c) (sym p) found) ∙ get-set_self k v d)
