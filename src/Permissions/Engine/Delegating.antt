-- ===== src/Permissions/Engine/Delegating.antt =====
-- packages/permissions/src/index.ts: `#validateDelegation`, and what a delegated capability can do.
use woyengi.Base.{
  suc, ◌≤◌, ◌<◌, some, List, [], ◌∷◌, Text, true, ok, ◌≡◌, refl, arith, In, inl, inr, ◌⊎◌, text_le,
  text_lt, Bool-cases, any, all, any-true, all-In, Option-cases, text_lt-false, text_lt-true,
  text_le_trans, sym, ◌∙◌,
}
use woyengi.Base.Dict.{Dict, get, member, member-In, get-In_entry}
use woyengi.Permissions.Capability.{Capability, in_boundary, sensitivity_rank}
use woyengi.Permissions.Capability.Boundaries.{in_boundary_trans}
use woyengi.Permissions.Engine.{
  AuthorizationRequest, check_delegation, holds, subset, optional_subset, conditions_kept,
  strictly_narrows,
}
use woyengi.Permissions.Engine.Passing.{Covers}

-- What a successful registration has checked of a delegated capability and its parent.
pub record Narrows (c p : Capability) : Type 0 where
  pub permitted : p.delegation.can_delegate ≡ true
  pub issued_by_parent : c.issuer ≡ p.principal
  pub same_workspace : c.workspace_id ≡ p.workspace_id
  pub depth_left : p.delegation.depth < p.delegation.max_depth
  pub one_deeper : c.delegation.depth ≡ suc p.delegation.depth
  pub bounded : c.delegation.max_depth ≤ p.delegation.max_depth
  pub begins_within : text_le p.valid_from c.valid_from ≡ true
  pub ends_within : text_le c.expires_at p.expires_at ≡ true
  pub operations : subset c.operations p.operations ≡ true
  pub purposes : subset c.purposes p.purposes ≡ true
  pub graphs : optional_subset c.graph_types p.graph_types ≡ true
  pub entities : optional_subset c.entity_ids p.entity_ids ≡ true
  pub resources :
      all (λ prefix. any (λ root. in_boundary prefix root) p.resource_prefixes) c.resource_prefixes
      ≡ true
  pub sensitivity : sensitivity_rank c.max_sensitivity ≤ sensitivity_rank p.max_sensitivity
  pub conditions : conditions_kept c.conditions p.conditions ≡ ok tt
  pub strict : strictly_narrows c p ≡ true

pub check_delegation-Narrows :
    (c p : Capability) (id : Text) {u : Unit {0}} → check_delegation c p id ≡ ok u → Narrows c p
unfolding check_delegation
check_delegation-Narrows c p id h = record {
  permitted = ground arith;
  issued_by_parent = ground arith;
  same_workspace = ground arith;
  depth_left = ground arith;
  one_deeper = ground arith;
  bounded = ground arith;
  begins_within = text_lt-false c.valid_from p.valid_from (ground arith);
  ends_within = text_lt-false p.expires_at c.expires_at (ground arith);
  operations = ground arith;
  purposes = ground arith;
  graphs = ground arith;
  entities = ground arith;
  resources = ground arith;
  sensitivity = ground arith;
  conditions = ground arith;
  strict = ground arith;
}

text_lt-le_trans : (a b c : Text) → text_lt a b ≡ true → text_le b c ≡ true → text_lt a c ≡ true
text_lt-le_trans a b c h k = elim (Bool-cases (text_lt a c)) [
  | inl e ↦ e
  | inr e ↦ absurd (cc (text_lt-true a b h, text_le_trans b c a k (text_lt-false a c e)))
]

subset-member :
    (x : Text) (xs ys : List Text) → subset xs ys ≡ true → member x xs ≡ true → member x ys ≡ true
unfolding subset
subset-member x xs ys h m = all-In (λ item. member item ys) x xs (member-In x xs m) h

optional_subset-member :
    (x : Text) (xs ys : List Text)
    → optional_subset xs ys ≡ true
    → (xs ≡ []) ⊎ (member x xs ≡ true)
    → (ys ≡ []) ⊎ (member x ys ≡ true)
unfolding optional_subset
optional_subset-member x xs [] h m = inl refl
optional_subset-member x [] (y ∷ ys) h m = absurd (cc)
optional_subset-member x (z ∷ xs) (y ∷ ys) h (inl e) = absurd (cc)
optional_subset-member x (z ∷ xs) (y ∷ ys) h (inr m) = inr (subset-member x (z ∷ xs) (y ∷ ys) h m)

holds-get : (m : Dict Text) (n v : Text) → holds m n v ≡ true → get n m ≡ some v
unfolding holds
holds-get m n v h = elim (Option-cases (get n m)) [
  | inl e ↦ absurd (ground arith)
  | inr (w, e) ↦ ground arith
]

conditions_kept-holds :
    (child parent : Dict Text)
    → conditions_kept child parent ≡ ok tt
    → (e : Text × Text) → In e parent
    → In e child
unfolding conditions_kept
conditions_kept-holds child [] h e i = absurd i
conditions_kept-holds child ((n, v) ∷ rest) h e (inl q) =
    rw q (get-In_entry n v child (holds-get child n v (ground arith)))
conditions_kept-holds child ((n, v) ∷ rest) h e (inr i) =
    conditions_kept-holds child rest (ground arith) e i

-- What a delegated capability covers, its parent covers at the same time.
pub Narrows-Covers :
    (c p : Capability) (r : AuthorizationRequest) (at : Text)
    → Narrows c p
    → Covers c r at
    → Covers p r at
Narrows-Covers c p r at n v = record {
  begun = text_le_trans p.valid_from c.valid_from at n.begins_within v.begun;
  unexpired = text_lt-le_trans at c.expires_at p.expires_at v.unexpired n.ends_within;
  in_workspace = sym n.same_workspace ∙ v.in_workspace;
  own_context = v.own_context;
  workspace_resource = v.workspace_resource;
  operation = subset-member r.operation c.operations p.operations n.operations v.operation;
  purpose = subset-member r.purpose c.purposes p.purposes n.purposes v.purpose;
  resource =
      let (q, i, k) = v.resource in
      let (root, j, l) =
        any-true (λ root. in_boundary q root) p.resource_prefixes
          (all-In (λ prefix. any (λ root. in_boundary prefix root) p.resource_prefixes) q
            c.resource_prefixes i n.resources) in
      (root, j, in_boundary_trans r.resource_id q root k l);
  graph = optional_subset-member r.graph_type c.graph_types p.graph_types n.graphs v.graph;
  entity = optional_subset-member r.entity_id c.entity_ids p.entity_ids n.entities v.entity;
  sensitivity = omega (arith, v.sensitivity, n.sensitivity);
  conditions =
      λ e i. v.conditions e (conditions_kept-holds c.conditions p.conditions n.conditions e i);
}
