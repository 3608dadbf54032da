-- ===== src/Permissions/Engine/Tests.antt =====
-- Runs of the capability engine, and the theorems at concrete capabilities.
use woyengi.Base.{
  ◌+◌, ◌≤◌, none, some, [], ◌∷◌, Text, text, text_discrete, true, false, ok, raise, ◌≡◌, ◌≢◌, refl,
  arith, normalize_instant, prefixed, required_text, trim, starts_with, any, all, find, keep,
  compare_units, text_le, plain_error, ◌++◌,
}
use woyengi.Base.Dict.{get, set, member}
use woyengi.Base.Sort.{sort}
use woyengi.Permissions.Capability.{
  Capability, public, internal, confidential, in_boundary, sensitivity_rank,
}
use woyengi.Permissions.Engine.{
  AuthorizationRequest, AuthorizationDecision, Engine, empty, register, revoke, authorize, evaluate,
  evaluations_of, decision, note, is_empty,
}
use woyengi.Permissions.Engine.Chains.{Built, new, registered, Delegates-Covers, Delegates-depth}
use woyengi.Permissions.Engine.Deciding.{Grants, authorize-Grants, revoke_lem}
use woyengi.Permissions.Engine.Passing.{Covers, evaluate-Covers}
use woyengi.Samples.{plain_host, value_or}

abbrev pub workspace : Text
workspace = text "workspace:w"

abbrev pub owner : Text
owner = text "principal:a"

abbrev agent : Text
agent = text "principal:b"

abbrev pub root : Capability
root = record {
  id = text "capability:r";
  workspace_id = workspace;
  principal = owner;
  principal_kind = text "human";
  issuer = text "system:s";
  resource_prefixes = workspace ∷ [];
  graph_types = [];
  entity_ids = [];
  operations = text "READ" ∷ text "SHARE" ∷ [];
  purposes = text "work" ∷ [];
  max_sensitivity = confidential;
  conditions = [];
  valid_from = text "1Z";
  expires_at = text "9Z";
  delegation = record {
    can_delegate = true;
    parent_capability_id = none;
    depth = 0;
    max_depth = 2;
  };
}

abbrev child : Capability
child = record root {
  id = text "capability:c";
  principal = agent;
  principal_kind = text "agent";
  issuer = owner;
  operations = text "READ" ∷ [];
  max_sensitivity = internal;
  delegation = record {
    can_delegate = false;
    parent_capability_id = some (text "capability:r");
    depth = 1;
    max_depth = 1;
  };
}

abbrev request : AuthorizationRequest
request = record {
  principal = agent;
  resource_id = text "workspace:w/doc";
  graph_type = text "g";
  entity_id = text "e";
  operation = text "READ";
  purpose = text "work";
  sensitivity = public;
  context = [];
  context_workspace_id = workspace;
  context_principal_id = agent;
  at = text "5Z";
}

abbrev with_root : Engine
with_root = value_or empty (register empty root)

abbrev with_child : Engine
with_child = value_or empty (register with_root child)

abbrev after_revocation : Engine
after_revocation = value_or empty (revoke with_child (text "capability:r") (text "3Z"))

-- A delegation that narrows nothing is refused.
equal_grant :
    register with_root (record child {
      operations = text "READ" ∷ text "SHARE" ∷ [];
      max_sensitivity = confidential;
    })
    ≡ raise plain_error (
        text "AgentPrincipal cannot inherit an entire human grant"
        ++ text "; delegation must strictly narrow authority")
unfolding register empty get set text text_discrete member all any in_boundary starts_with
    sensitivity_rank compare_units
equal_grant = refl

with_child-Built : Built with_child
unfolding register empty get set text text_discrete member all any in_boundary starts_with
    sensitivity_rank compare_units
with_child-Built = registered child (registered root (new refl) refl) refl

child-Covers : Covers child request (text "5Z")
unfolding evaluate note is_empty get text text_discrete member any in_boundary starts_with
    sensitivity_rank compare_units
child-Covers = (evaluate-Covers child request (text "5Z") none refl).1

Delegates-Covers_example : Covers root request (text "5Z")
unfolding register empty get set text text_discrete member all any in_boundary starts_with
    sensitivity_rank compare_units
Delegates-Covers_example =
    Delegates-Covers with_child with_child-Built 1 (text "capability:c") child root request
      (text "5Z") refl (text "capability:r", root, refl, refl, refl) child-Covers

Delegates-depth_example :
    (child.delegation.depth ≡ root.delegation.depth + 1)
    × (child.delegation.depth ≤ root.delegation.max_depth)
    × (child.delegation.max_depth ≤ root.delegation.max_depth)
unfolding register empty get set text text_discrete member all any in_boundary starts_with
    sensitivity_rank compare_units
Delegates-depth_example =
    Delegates-depth with_child with_child-Built 1 (text "capability:c") child root refl
      (text "capability:r", root, refl, refl, refl) (omega arith)

-- The capability that was delegated from a revoked one is still granted.
after_parent_revoked :
    (value_or (decision none []) (authorize after_revocation request)).allowed ≡ true
unfolding register revoke authorize empty get set text text_discrete member all any find keep
    in_boundary starts_with sensitivity_rank compare_units evaluate note is_empty evaluations_of
    decision normalize_instant prefixed required_text trim sort
after_parent_revoked = refl

authorize-Grants_example :
    (d : AuthorizationDecision) × (authorize after_revocation request ≡ ok d)
    × ((c : Capability) → Grants after_revocation request (text "5Z") c → d.allowed ≡ true)
    × (d.allowed ≡ true
        → (c : Capability) × Grants after_revocation request (text "5Z") c
          × (d.capability_id ≡ some c.id))
    × (d.allowed ≡ false → d.capability_id ≡ none)
unfolding normalize_instant prefixed required_text trim starts_with text text_discrete
authorize-Grants_example =
    authorize-Grants after_revocation request (text "5Z") agent workspace agent refl refl refl refl

revoke_lem_example :
    ((c : Capability) (r : AuthorizationRequest) (now : Text)
      → c.id ≡ text "capability:r"
      → text_le (text "3Z") now ≡ true
      → (evaluate c r now (get c.id after_revocation.revocations)).passed ≡ false)
    × ((c : Capability) (r : AuthorizationRequest) (now : Text)
        → c.id ≡ text "capability:r"
        → text_le (text "3Z") now ≡ false
        → evaluate c r now (get c.id after_revocation.revocations)
          ≡ evaluate c r now (get c.id with_child.revocations))
    × ((c : Capability) (r : AuthorizationRequest) (now : Text)
        → c.id ≢ text "capability:r"
        → evaluate c r now (get c.id after_revocation.revocations)
          ≡ evaluate c r now (get c.id with_child.revocations))
    × ((later : Text) (e'' : Engine) → revoke after_revocation (text "capability:r") later ≢ ok e'')
unfolding register revoke empty get set text text_discrete member all any in_boundary starts_with
    sensitivity_rank compare_units normalize_instant prefixed required_text trim
revoke_lem_example =
    revoke_lem with_child after_revocation (text "capability:r") (text "3Z") (text "capability:r")
      (text "3Z") refl refl refl
