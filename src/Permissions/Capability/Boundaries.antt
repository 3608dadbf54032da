-- ===== src/Permissions/Capability/Boundaries.antt =====
-- packages/permissions/src/index.ts: `inBoundary` as a relation between paths.
use mathlib.Core.List.{append_assoc}
use woyengi.Base.{
  [], ◌∷◌, ◌++◌, Text, text, text_discrete, true, ◌≡◌, refl, ◌∙◌, ap, arith, starts_with, ◌⊎◌, inl,
  inr,
}
use woyengi.Permissions.Capability.{in_boundary}

starts_with-append : (s p : Text) → starts_with s p ≡ true → (rest : Text) × (s ≡ p ++ rest)
unfolding starts_with
starts_with-append s [] h = (s, refl)
starts_with-append [] (c ∷ p) h = absurd (cc)
starts_with-append (x ∷ s) (c ∷ p) h =
    let (rest, e) = starts_with-append s p (ground arith) in (rest, ground arith)

append-starts_with : (p rest : Text) → starts_with (p ++ rest) p ≡ true
unfolding starts_with
append-starts_with [] rest = refl
append-starts_with (c ∷ p) rest = ground (arith, append-starts_with p rest)

-- A string is within a root if it is the root, or goes on from it behind a slash.
abbrev pub Within : Text → Text → Type 0
Within value root = (value ≡ root) ⊎ ((rest : Text) × (value ≡ root ++ text "/" ++ rest))

pub in_boundary-Within : (value root : Text) → in_boundary value root ≡ true → Within value root
unfolding in_boundary
in_boundary-Within value root h = elim (text_discrete value root) [
  | yes e ↦ inl e
  | no n ↦
      let (rest, e) = starts_with-append value (root ++ text "/") (ground arith) in inr (rest, e)
]

pub Within-in_boundary : (value root : Text) → Within value root → in_boundary value root ≡ true
unfolding in_boundary
Within-in_boundary value root (inl e) = ground arith
Within-in_boundary value root (inr (rest, e)) =
    let k : starts_with value (root ++ text "/") ≡ true =
      rw e (append-starts_with (root ++ text "/") rest) in
    ground arith

-- Scopes nest: what is within a scope is within every scope that contains it.
pub in_boundary_trans :
    (value prefix root : Text)
    → in_boundary value prefix ≡ true
    → in_boundary prefix root ≡ true
    → in_boundary value root ≡ true
in_boundary_trans value prefix root h k =
    Within-in_boundary value root
      (through (in_boundary-Within value prefix h) (in_boundary-Within prefix root k))
  where
    through : Within value prefix → Within prefix root → Within value root
    through (inl e) w = rw e w
    through (inr (r, e)) (inl f) = inr (r, e ∙ ap (λ x. x ++ text "/" ++ r) f)
    through (inr (r, e)) (inr (q, f)) =
        inr (q ++ text "/" ++ r, e ∙ ap (λ x. x ++ text "/" ++ r) f ∙ simp append_assoc)
