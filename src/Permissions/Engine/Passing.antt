-- ===== src/Permissions/Engine/Passing.antt =====
-- packages/permissions/src/index.ts: what `evaluate` asks of a capability, as a predicate.
use woyengi.Base.{
  ◌≤◌, Option, List, [], ◌∷◌, Text, Bool, true, false, ◌≡◌, refl, arith, In, inl, inr, ◌⊎◌, text_le,
  text_lt, any-true, any_of_In, text_lt-false, text_le-false, text_lt-true, text_le-text_lt,
}
use woyengi.Base.Dict.{Dict, member}
use woyengi.Permissions.Capability.{Capability, in_boundary, sensitivity_rank}
use woyengi.Permissions.Engine.{
  AuthorizationRequest, evaluate, condition_failures, holds, revoked, out_of_optional, note,
  is_empty,
}

-- The capability covers the request at `at`, its revocation left aside.
pub record Covers (c : Capability) (r : AuthorizationRequest) (at : Text) : Type 0 where
  pub begun : text_le c.valid_from at ≡ true
  pub unexpired : text_lt at c.expires_at ≡ true
  pub in_workspace : c.workspace_id ≡ r.context_workspace_id
  pub own_context : r.context_principal_id ≡ r.principal
  pub workspace_resource : in_boundary r.resource_id r.context_workspace_id ≡ true
  pub operation : member r.operation c.operations ≡ true
  pub purpose : member r.purpose c.purposes ≡ true
  pub resource : (p : Text) × In p c.resource_prefixes × (in_boundary r.resource_id p ≡ true)
  pub graph : (c.graph_types ≡ []) ⊎ (member r.graph_type c.graph_types ≡ true)
  pub entity : (c.entity_ids ≡ []) ⊎ (member r.entity_id c.entity_ids ≡ true)
  pub sensitivity : sensitivity_rank r.sensitivity ≤ sensitivity_rank c.max_sensitivity
  pub conditions : (e : Text × Text) → In e c.conditions → holds r.context e.0 e.1 ≡ true

pub condition_failures-none :
    (context conditions : Dict Text)
    → condition_failures context conditions ≡ []
    → (e : Text × Text) → In e conditions
    → holds context e.0 e.1 ≡ true
unfolding condition_failures note
condition_failures-none context [] h e i = absurd i
condition_failures-none context ((n, v) ∷ rest) h e (inl q) = rw q (ground arith)
condition_failures-none context ((n, v) ∷ rest) h e (inr i) =
    condition_failures-none context rest (ground arith) e i

pub none-condition_failures :
    (context conditions : Dict Text)
    → ((e : Text × Text) → In e conditions → holds context e.0 e.1 ≡ true)
    → condition_failures context conditions ≡ []
unfolding condition_failures note
none-condition_failures context [] f = refl
none-condition_failures context ((n, v) ∷ rest) f =
    ground (arith, f (n, v) (inl refl), none-condition_failures context rest (λ e i. f e (inr i)))

out_of_optional-false :
    (xs : List Text) (item : Text)
    → out_of_optional xs item ≡ false
    → (xs ≡ []) ⊎ (member item xs ≡ true)
unfolding out_of_optional
out_of_optional-false [] item h = inl refl
out_of_optional-false (x ∷ xs) item h = inr (ground arith)

false-out_of_optional :
    (xs : List Text) (item : Text)
    → (xs ≡ []) ⊎ (member item xs ≡ true)
    → out_of_optional xs item ≡ false
unfolding out_of_optional
false-out_of_optional [] item h = refl
false-out_of_optional (x ∷ xs) item h = ground arith

pub note-empty :
    (b : Bool) (t : Text) (rest : List Text)
    → is_empty (note b t rest) ≡ true
    → (b ≡ false) × (is_empty rest ≡ true)
unfolding note is_empty
note-empty true t rest h = absurd (cc)
note-empty false t rest h = (refl, h)

pub is_empty-nil : (xs : List Text) → is_empty xs ≡ true → xs ≡ []
unfolding is_empty
is_empty-nil [] h = refl
is_empty-nil (x ∷ xs) h = cc

module _ (c : Capability) (r : AuthorizationRequest) (at : Text) (revoked_at : Option Text) where
  -- A capability passes exactly if it is not revoked by then and covers the request.
  pub evaluate-Covers :
      (evaluate c r at revoked_at).passed ≡ true → (revoked at revoked_at ≡ false) × Covers c r at
  unfolding evaluate
  evaluate-Covers h =
      let (not_revoked, h1) = note-empty _ _ _ h in
      let (in_time, h2) = note-empty _ _ _ h1 in
      let (workspace, h3) = note-empty _ _ _ h2 in
      let (own, h4) = note-empty _ _ _ h3 in
      let (inside, h5) = note-empty _ _ _ h4 in
      let (op, h6) = note-empty _ _ _ h5 in
      let (purp, h7) = note-empty _ _ _ h6 in
      let (res, h8) = note-empty _ _ _ h7 in
      let (gr, h9) = note-empty _ _ _ h8 in
      let (en, h10) = note-empty _ _ _ h9 in
      let (sens, h11) = note-empty _ _ _ h10 in
      (
        not_revoked,
        record {
          begun = text_lt-false at c.valid_from (ground arith);
          unexpired = text_le-false c.expires_at at (ground arith);
          in_workspace = ground arith;
          own_context = ground arith;
          workspace_resource = ground arith;
          operation = ground arith;
          purpose = ground arith;
          resource = any-true (λ p. in_boundary r.resource_id p) c.resource_prefixes (ground arith);
          graph = out_of_optional-false c.graph_types r.graph_type gr;
          entity = out_of_optional-false c.entity_ids r.entity_id en;
          sensitivity = ground arith;
          conditions =
              condition_failures-none r.context c.conditions
                (is_empty-nil (condition_failures r.context c.conditions) h11);
        },
      )

  pub Covers-evaluate :
      revoked at revoked_at ≡ false → Covers c r at → (evaluate c r at revoked_at).passed ≡ true
  unfolding evaluate note is_empty
  Covers-evaluate live v =
      let (p, i, k) = v.resource in
      ground (
        arith,
        text_lt-true at c.expires_at v.unexpired,
        text_le-text_lt c.valid_from at v.begun,
        any_of_In (λ q. in_boundary r.resource_id q) p c.resource_prefixes i k,
        false-out_of_optional c.graph_types r.graph_type v.graph,
        false-out_of_optional c.entity_ids r.entity_id v.entity,
        none-condition_failures r.context c.conditions v.conditions,
      )

  pub evaluate-revoked : revoked at revoked_at ≡ true → (evaluate c r at revoked_at).passed ≡ false
  unfolding evaluate note is_empty
  evaluate-revoked gone = ground arith

-- Two instants of a revocation that both lie ahead, or are missing, give the same evaluation.
pub evaluate-live :
    (c : Capability) (r : AuthorizationRequest) (at : Text) (one two : Option Text)
    → revoked at one ≡ false
    → revoked at two ≡ false
    → evaluate c r at one ≡ evaluate c r at two
unfolding evaluate
evaluate-live c r at one two p q = rw (p, q) refl
