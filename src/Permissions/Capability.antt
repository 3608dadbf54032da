-- ===== src/Permissions/Capability.antt =====
-- packages/permissions/src/index.ts: `Capability`, the validation of `defineCapability`, and the
-- tests on scopes. The operations and principal kinds are strings here, as the code compares
-- them; delegation depths are natural numbers. The keys of `conditions` are in insertion order.
pub mod Boundaries
use woyengi.Base.{
  ℕ, Option, none, some, List, [], ◌∷◌, ◌++◌, Text, text, Bool, true, false, not, ◌&&◌, ◌||◌,
  Result, ok, raise, plain_error, type_error, range_error, ◌>>=◌, ◌>>◌, throw_if, map_result, same,
  text_le, text_lt, leb, ltb, ◌==◌, length, starts_with, any, all, Host, required_text, namespaced,
  prefixed, normalize_instant, explicit_offset, compare_units, is_some,
}
use woyengi.Base.Dict.{Dict, get, set, member, add_all, keys}
use woyengi.Base.Sort.{sort}

pub data Sensitivity : Type 0 where
  public internal confidential restricted : Sensitivity

pub record Delegation : Type 0 where
  pub can_delegate : Bool
  pub parent_capability_id : Option Text
  pub depth : ℕ
  pub max_depth : ℕ

pub record Capability : Type 0 where
  pub id : Text
  pub workspace_id : Text
  pub principal : Text
  pub principal_kind : Text
  pub issuer : Text
  pub resource_prefixes : List Text
  pub graph_types : List Text
  pub entity_ids : List Text
  pub operations : List Text
  pub purposes : List Text
  pub max_sensitivity : Sensitivity
  pub conditions : Dict Text
  pub valid_from : Text
  pub expires_at : Text
  pub delegation : Delegation

unfoldable pub in_boundary : Text → Text → Bool
in_boundary value root = same value root || starts_with value (root ++ text "/")

unfoldable pub sensitivity_rank : Sensitivity → ℕ
sensitivity_rank public = 0
sensitivity_rank internal = 1
sensitivity_rank confidential = 2
sensitivity_rank restricted = 3

unfoldable pub unique : Text → List Text → Result (List Text)
unique name values = do
  normalized ← map_result (required_text name) values
  throw_if (not (length (add_all [] normalized) == length normalized)) plain_error
      (name ++ text " must not contain duplicates")
  ok (sort compare_units normalized)

unfoldable pub unique_required : Text → List Text → Result (List Text)
unfolding unique
unique_required name values = do
  normalized ← unique name values
  throw_if (length normalized == 0) type_error (name ++ text " must not be empty")
  ok normalized

principal_kind_of : Text → Result Text
principal_kind_of value = do
  throw_if
      (not (member value (text "human" ∷ text "agent" ∷ text "service" ∷ text "automation" ∷ [])))
      type_error (text "unsupported capability principal kind: " ++ value)
  ok value

max_safe_integer : ℕ
max_safe_integer = 9007199254740991

non_negative_integer : Text → ℕ → Result ℕ
unfolding max_safe_integer
non_negative_integer name value = do
  throw_if (ltb max_safe_integer value) type_error (name ++ text " must be a non-negative integer")
  ok value

condition_entry : Text × Text → Result (Text × Text)
condition_entry (name, item) = do
  n ← required_text (text "condition name") name
  v ← required_text (text "condition value") item
  ok (n, v)

-- `Object.fromEntries`
unfoldable pub from_entries : Dict Text → List (Text × Text) → Dict Text
from_entries m [] = m
from_entries m ((k, v) ∷ es) = from_entries (set k v m) es

optional_parent : Option Text → Result (Option Text)
optional_parent none = ok none
optional_parent (some p) = do
  id ← prefixed (text "parent capability id") p (text "capability:")
  ok (some id)

module _ ⦃h : Host⦄ where
  unfoldable pub sorted_record : Dict Text → Result (Dict Text)
  unfolding condition_entry from_entries
  sorted_record value = do
    entries ← map_result condition_entry value
    ok (from_entries [] (sort (λ left right. h.locale_compare left.0 right.0) entries))

  unfoldable pub define_capability : Capability → Result Capability
  unfolding unique unique_required principal_kind_of non_negative_integer sorted_record
      optional_parent
  define_capability input = do
    valid_from ← normalize_instant explicit_offset input.valid_from
    expires_at ← normalize_instant explicit_offset input.expires_at
    throw_if (text_le expires_at valid_from) range_error
        (text "capability expiry must be after validFrom")
    workspace_id ← prefixed (text "workspace id") input.workspace_id (text "workspace:")
    depth ← non_negative_integer (text "delegation depth") input.delegation.depth
    max_depth ← non_negative_integer (text "maximum delegation depth") input.delegation.max_depth
    throw_if (ltb max_depth depth) range_error
        (text "delegation depth exceeds maximum delegation depth")
    throw_if (not (is_some input.delegation.parent_capability_id) && not (depth == 0)) range_error
        (text "root capability delegation depth must be zero")
    throw_if (is_some input.delegation.parent_capability_id && depth == 0) range_error
        (text "delegated capability depth must be greater than zero")
    resource_prefixes ← unique_required (text "resourcePrefixes") input.resource_prefixes
    throw_if (not (all (λ prefix. in_boundary prefix workspace_id) resource_prefixes)) plain_error
        (text "capability resources must remain inside its workspace scope")
    id ← prefixed (text "capability id") input.id (text "capability:")
    principal ← prefixed (text "principal") input.principal (text "principal:")
    principal_kind ← principal_kind_of input.principal_kind
    issuer ← namespaced (text "issuer") input.issuer
    graph_types ← unique (text "graphTypes") input.graph_types
    entity_ids ← unique (text "entityIds") input.entity_ids
    operations ← unique_required (text "operations") input.operations
    purposes ← unique_required (text "purposes") input.purposes
    conditions ← sorted_record input.conditions
    parent ← optional_parent input.delegation.parent_capability_id
    ok (record {
      id = id;
      workspace_id = workspace_id;
      principal = principal;
      principal_kind = principal_kind;
      issuer = issuer;
      resource_prefixes = resource_prefixes;
      graph_types = graph_types;
      entity_ids = entity_ids;
      operations = operations;
      purposes = purposes;
      max_sensitivity = input.max_sensitivity;
      conditions = conditions;
      valid_from = valid_from;
      expires_at = expires_at;
      delegation = record {
        can_delegate = input.delegation.can_delegate;
        parent_capability_id = parent;
        depth = depth;
        max_depth = max_depth;
      };
    })
