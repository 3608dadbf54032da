-- ===== src/Identity/Registry/Aliases.antt =====
-- packages/identity/src/index.ts: what `resolveAlias` answers.
use woyengi.Base.{
  ℕ, zero, suc, Option, none, some, List, [], Text, true, ok, ◌≡◌, refl, subst, arith, Host, inl,
  inr, In, All, All-In, Distinct, sort-Distinct, add_all-Distinct, In-add_all, In_add_all,
  compare_units, or_default,
}
use woyengi.Base.Compare.{compare_units-IsComparator}
use woyengi.Base.Dict.{get, member, add_all}
use woyengi.Base.Mapping.{map_result_total}
use woyengi.Base.Sort.{sort, Sorted, sort-Sorted, In-sort, In_sort}
use woyengi.Identity.Operations.{Operation, normalize_alias}
use woyengi.Identity.Registry.{Registry, empty, apply_all, canonical, resolve_alias}
use woyengi.Identity.Registry.Resolution.{Chain, canonical-Chain, Chain-root}
use woyengi.Identity.Registry.Invariant.{IsWellFormed, apply_all-IsWellFormed, empty-IsWellFormed}

-- The entities that an alias has been given to.
abbrev pub owners : Registry → Text → List Text
owners r a = or_default (get a r.aliases) []

Chain-known :
    (r : Registry) (n : ℕ) (e s : Text)
    → IsWellFormed r
    → member e r.entities ≡ true
    → Chain r.merged_into n e s
    → member s r.entities ≡ true
Chain-known r zero e s w k (g, q) = subst (λ x. member x r.entities ≡ true) q k
Chain-known r (suc n) e s w k (p, g, c) = Chain-known r n p s w (w.known_targets e p g) c

owners-known :
    (r : Registry) (a : Text) → IsWellFormed r → All (λ o. member o r.entities ≡ true) (owners r a)
owners-known r a w = go (get a r.aliases) refl
  where
    go :
        (x : Option (List Text))
        → get a r.aliases ≡ x
        → All (λ o. member o r.entities ≡ true) (or_default x [])
    go none e = tt
    go (some os) e = w.known_owners a os e

-- What a resolved alias is: in the order of `<`, each entity once, exactly the canonical entities
-- of the owners, and each of them an entity of the registry that is merged into nothing.
pub record Resolves (r : Registry) (a : Text) (found : List Text) : Type 0 where
  pub in_order : Sorted compare_units found
  pub once : Distinct found
  pub from_owner :
      (x : Text) → In x found → (o : Text) × In o (owners r a) × (canonical r.merged_into o ≡ ok x)
  pub of_owner :
      (o : Text) → In o (owners r a) → (x : Text) × (canonical r.merged_into o ≡ ok x) × In x found
  pub known : (x : Text) → In x found → member x r.entities ≡ true
  pub unmerged : (x : Text) → In x found → get x r.merged_into ≡ none

module _ ⦃h : Host⦄ where
  -- In a registry that operations have built, an alias that is not blank always resolves: to the
  -- canonical entities of its owners, each once and in order, all known and none of them merged.
  pub resolve_alias-Resolves :
      (os : List Operation) (r : Registry)
      → apply_all empty os ≡ ok r
      → (alias_text a : Text) → normalize_alias alias_text ≡ ok a
      → (found : List Text) × (resolve_alias r alias_text ≡ ok found) × Resolves r a found
  unfolding resolve_alias
  resolve_alias-Resolves os r built alias_text a na =
      let w : IsWellFormed r = apply_all-IsWellFormed empty r os built empty-IsWellFormed in
      let (roots, m, to, from) =
        map_result_total (canonical r.merged_into) (owners r a)
          (λ o i. let (n, s, c) = w.acyclic o in (s, canonical-Chain r.merged_into n o s c)) in
      let inside : (x : Text) → In x (sort compare_units (add_all [] roots)) → In x roots = λ x i.
        elim (In-add_all x [] roots (In-sort compare_units x (add_all [] roots) i)) [
          | inl j ↦ absurd j
          | inr j ↦ j
        ] in
      (
        sort compare_units (add_all [] roots),
        ground arith,
        record {
          in_order = sort-Sorted compare_units-IsComparator (add_all [] roots);
          once = sort-Distinct compare_units (add_all [] roots) (add_all-Distinct [] roots tt);
          from_owner = λ x i. from x (inside x i);
          of_owner = λ o i.
              let (x, e, j) = to o i in
              (x, e, In_sort compare_units x (add_all [] roots) (In_add_all x [] roots (inr j)));
          known = λ x i.
              let (o, j, e) = from x (inside x i) in
              let (n, s, c) = w.acyclic o in
              let q : s ≡ x = cc (canonical-Chain r.merged_into n o s c) in
              subst (λ y. member y r.entities ≡ true) q
                (Chain-known r n o s w
                  (All-In (λ y. member y r.entities ≡ true) o (owners r a) j (owners-known r a w))
                  c);
          unmerged = λ x i.
              let (o, j, e) = from x (inside x i) in
              let (n, s, c) = w.acyclic o in
              let q : s ≡ x = cc (canonical-Chain r.merged_into n o s c) in
              subst (λ y. get y r.merged_into ≡ none) q (Chain-root r.merged_into n o s c);
        },
      )
