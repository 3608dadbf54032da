-- ===== src/Permissions/Engine.antt =====
-- packages/permissions/src/index.ts: `CapabilityEngine`. A method that throws leaves the engine
-- as it was, since it throws before its first change.
pub mod Passing
pub mod Delegating
pub mod Chains
pub mod Deciding
pub mod Tests
use woyengi.Base.{
  ℕ, suc, Option, none, some, List, [], ◌∷◌, ◌++◌, Text, text, Bool, true, false, not, ◌&&◌, ◌||◌,
  Result, ok, raise, plain_error, ◌>>=◌, ◌>>◌, throw_if, same, text_le, text_lt, leb, ltb, ◌==◌,
  length, any, all, find, keep, map, Host, prefixed, if◌then◌else◌, normalize_instant,
  explicit_offset, is_some,
}
use woyengi.Base.Dict.{Dict, get, has, set, member, keys, values}
use woyengi.Base.Sort.{sort}
use woyengi.Permissions.Capability.{Capability, Sensitivity, in_boundary, sensitivity_rank}

pub record AuthorizationRequest : Type 0 where
  pub principal : Text
  pub resource_id : Text
  pub graph_type : Text
  pub entity_id : Text
  pub operation : Text
  pub purpose : Text
  pub sensitivity : Sensitivity
  pub context : Dict Text
  pub context_workspace_id : Text
  pub context_principal_id : Text
  pub at : Text

pub record CapabilityEvaluation : Type 0 where
  pub capability_id : Text
  pub passed : Bool
  pub failures : List Text

pub record AuthorizationDecision : Type 0 where
  pub allowed : Bool
  pub capability_id : Option Text
  pub reason : Text
  pub evaluations : List CapabilityEvaluation

pub record Engine : Type 0 where
  pub capabilities : Dict Capability
  pub revocations : Dict Text

pub empty : Engine
empty = record { capabilities = []; revocations = [] }

-- Whether `m[name] === value`.
pub holds : Dict Text → Text → Text → Bool
holds m name value = elim (get name m) [ none ↦ false | some v ↦ same v value ]

pub subset : List Text → List Text → Bool
subset child parent = all (λ item. member item parent) child

pub optional_subset : List Text → List Text → Bool
unfolding subset
optional_subset child [] = true
optional_subset [] (p ∷ ps) = false
optional_subset (c ∷ cs) (p ∷ ps) = subset (c ∷ cs) (p ∷ ps)

assert_subset : Text → Bool → Result (Unit {0})
assert_subset name inside =
    throw_if (not inside) plain_error
      (text "delegated capability " ++ name ++ text " exceed its parent")

same_values : List Text → List Text → Bool
same_values [] [] = true
same_values (x ∷ xs) (y ∷ ys) = same x y && same_values xs ys
same_values _ _ = false

pub strictly_narrows : Capability → Capability → Bool
unfolding same_values
strictly_narrows child parent =
    text_lt parent.valid_from child.valid_from
    || text_lt child.expires_at parent.expires_at
    || ltb (sensitivity_rank child.max_sensitivity) (sensitivity_rank parent.max_sensitivity)
    || not (same_values child.operations parent.operations)
    || not (same_values child.purposes parent.purposes)
    || not (same_values child.resource_prefixes parent.resource_prefixes)
    || not (same_values child.graph_types parent.graph_types)
    || not (same_values child.entity_ids parent.entity_ids)
    || ltb (length parent.conditions) (length child.conditions)

-- The loop over the parent's conditions.
pub conditions_kept : Dict Text → Dict Text → Result (Unit {0})
unfolding holds
conditions_kept child [] = ok tt
conditions_kept child ((name, value) ∷ rest) = do
  throw_if (not (holds child name value)) plain_error
      (text "delegated capability weakens parent condition: " ++ name)
  conditions_kept child rest

narrowing_subject : Capability → Capability → Text
narrowing_subject child parent =
    if same child.principal_kind (text "agent") && same parent.principal_kind (text "human")
    then text "AgentPrincipal cannot inherit an entire human grant"
    else text "delegated capability"

-- `#validateDelegation` from the test of `canDelegate` on.
pub check_delegation : Capability → Capability → Text → Result (Unit {0})
unfolding subset optional_subset assert_subset strictly_narrows conditions_kept narrowing_subject
check_delegation child parent parent_id = do
  throw_if (not parent.delegation.can_delegate) plain_error
      (text "parent capability cannot delegate: " ++ parent_id)
  throw_if (not (same child.issuer parent.principal)) plain_error
      (text "delegated capability issuer must be the parent principal")
  throw_if (not (same child.workspace_id parent.workspace_id)) plain_error
      (text "delegated capability workspace scope must match its parent")
  throw_if (leb parent.delegation.max_depth parent.delegation.depth) plain_error
      (text "parent capability has reached its maximum delegation depth")
  throw_if (not (child.delegation.depth == suc parent.delegation.depth)) plain_error
      (text "delegated capability must increment delegation depth by one")
  throw_if (ltb parent.delegation.max_depth child.delegation.max_depth) plain_error
      (text "delegated capability cannot increase maximum delegation depth")
  throw_if
      (text_lt child.valid_from parent.valid_from || text_lt parent.expires_at child.expires_at)
      plain_error (text "delegated capability time range exceeds its parent")
  assert_subset (text "operations") (subset child.operations parent.operations)
  assert_subset (text "purposes") (subset child.purposes parent.purposes)
  assert_subset (text "graphTypes") (optional_subset child.graph_types parent.graph_types)
  assert_subset (text "entityIds") (optional_subset child.entity_ids parent.entity_ids)
  throw_if
      (not (
        all (λ prefix. any (λ root. in_boundary prefix root) parent.resource_prefixes)
          child.resource_prefixes))
      plain_error (text "delegated capability resource scope exceeds its parent")
  throw_if (ltb (sensitivity_rank parent.max_sensitivity) (sensitivity_rank child.max_sensitivity))
      plain_error (text "delegated capability sensitivity exceeds its parent")
  conditions_kept child.conditions parent.conditions
  throw_if (not (strictly_narrows child parent)) plain_error
      (narrowing_subject child parent ++ text "; delegation must strictly narrow authority")

validate_delegation : Engine → Capability → Option Text → Result (Unit {0})
unfolding check_delegation
validate_delegation e child none = ok tt
validate_delegation e child (some parent_id) = elim (get parent_id e.capabilities) [
  | none ↦ raise plain_error (text "parent capability does not exist: " ++ parent_id)
  | some parent ↦ check_delegation child parent parent_id
]

pub register : Engine → Capability → Result Engine
unfolding validate_delegation
register e c = do
  throw_if (has c.id e.capabilities) plain_error (text "capability already exists: " ++ c.id)
  validate_delegation e c c.delegation.parent_capability_id
  ok (record e { capabilities = set c.id c e.capabilities })

-- `if (test) failures.push(failure)`, before the failures that follow.
unfoldable pub note : Bool → Text → List Text → List Text
note true failure rest = failure ∷ rest
note false failure rest = rest

unfoldable pub condition_failures : Dict Text → Dict Text → List Text
unfolding holds
condition_failures context [] = []
condition_failures context ((name, value) ∷ rest) =
    note (not (holds context name value)) (text "condition-failed:" ++ name)
      (condition_failures context rest)

pub revoked : Text → Option Text → Bool
revoked at none = false
revoked at (some t) = text_le t at

out_of_optional : List Text → Text → Bool
out_of_optional [] item = false
out_of_optional (x ∷ xs) item = not (member item (x ∷ xs))

failures_of : Capability → AuthorizationRequest → Text → Option Text → List Text
unfolding condition_failures revoked out_of_optional
failures_of c r at revoked_at = note (revoked at revoked_at) (text "revoked") (
    note (text_lt at c.valid_from || text_le c.expires_at at) (text "outside-time-bound") (
      note (not (same c.workspace_id r.context_workspace_id)) (text "workspace-out-of-scope") (
        note (not (same r.context_principal_id r.principal)) (text "principal-context-mismatch") (
          note (not (in_boundary r.resource_id r.context_workspace_id))
            (text "workspace-resource-mismatch")
            (note (not (member r.operation c.operations)) (text "operation-not-granted") (
              note (not (member r.purpose c.purposes)) (text "purpose-not-granted") (
                note (not (any (λ prefix. in_boundary r.resource_id prefix) c.resource_prefixes))
                  (text "resource-out-of-scope")
                  (note (out_of_optional c.graph_types r.graph_type) (text "graph-out-of-scope") (
                    note (out_of_optional c.entity_ids r.entity_id) (text "entity-out-of-scope") (
                      note
                        (ltb (sensitivity_rank c.max_sensitivity) (sensitivity_rank r.sensitivity))
                        (text "sensitivity-exceeds-grant")
                        (condition_failures r.context c.conditions)))))))))))

unfoldable pub is_empty : List Text → Bool
is_empty [] = true
is_empty (x ∷ xs) = false

pub evaluate : Capability → AuthorizationRequest → Text → Option Text → CapabilityEvaluation
unfolding failures_of
evaluate c r at revoked_at = record {
  capability_id = c.id;
  passed = is_empty (failures_of c r at revoked_at);
  failures = failures_of c r at revoked_at;
}

pub decision : Option CapabilityEvaluation → List CapabilityEvaluation → AuthorizationDecision
decision none es = record {
  allowed = false;
  capability_id = none;
  reason = text "default-deny";
  evaluations = es;
}
decision (some g) es = record {
  allowed = true;
  capability_id = some g.capability_id;
  reason = text "capability-granted";
  evaluations = es;
}

module _ ⦃h : Host⦄ where
  pub revoke : Engine → Text → Text → Result Engine
  revoke e capability_id revoked_at = do
    id ← prefixed (text "capability id") capability_id (text "capability:")
    throw_if (not (has id e.capabilities)) plain_error (text "capability does not exist: " ++ id)
    throw_if (has id e.revocations) plain_error (text "capability is already revoked: " ++ id)
    t ← normalize_instant explicit_offset revoked_at
    ok (record e { revocations = set id t e.revocations })

  -- The evaluations of the principal's capabilities, in the order of their ids.
  pub evaluations_of : Engine → AuthorizationRequest → Text → List CapabilityEvaluation
  evaluations_of e r at =
      map (λ c. evaluate c r at (get c.id e.revocations))
        (sort (λ left right. h.locale_compare left.id right.id)
          (keep (λ c. same c.principal r.principal) (values e.capabilities)))

  pub authorize : Engine → AuthorizationRequest → Result AuthorizationDecision
  unfolding evaluations_of decision
  authorize e request = do
    at ← normalize_instant explicit_offset request.at
    principal ← prefixed (text "authorization principal") request.principal (text "principal:")
    workspace_id ←
        prefixed (text "authorization workspace") request.context_workspace_id (text "workspace:")
    context_principal ←
        prefixed (text "workspace context principal") request.context_principal_id
          (text "principal:")
    let normalized = record request {
      principal = principal;
      context_workspace_id = workspace_id;
      context_principal_id = context_principal;
    }
    let evaluations = evaluations_of e normalized at
    ok (decision (find (λ v. v.passed) evaluations) evaluations)
