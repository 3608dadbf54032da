-- ===== src/Sync.antt =====
-- packages/sync/src/index.ts: sync operations, storage policies, and `SyncEngine`. An object is the
-- list of its entries in insertion order; keys that JavaScript enumerates first (array indices) or
-- that an object inherits are left out.
pub mod Converging
pub mod Tests
use woyengi.Base.{
  Option, none, some, List, [], ◌∷◌, ◌++◌, Text, text, Bool, true, false, not, ◌&&◌, ◌||◌, Result,
  ok, raise, plain_error, type_error, ◌>>=◌, ◌>>◌, throw_if, map_result, same, length, ◌==◌, keep,
  map, Host, required_text, prefixed, namespaced, normalize_instant, requires_offset, Ordering,
  or_else, or_default, text_le, if◌then◌else◌, ltb, compare_units, first,
}
use woyengi.Base.Dict.{Dict, get, set, member, add_all, keys}
use woyengi.Base.Sort.{sort}
use woyengi.Core.{StateValue}
use woyengi.Permissions.Capability.{unique}

pub data Locality : Type 0 where
  local_only cloud_allowed cloud_required ephemeral : Locality

pub record StoragePolicy : Type 0 where
  pub locality : Locality
  pub allowed_devices : List Text
  pub allowed_regions : List Text
  pub allowed_agents : List Text
  pub encryption : Text
  pub retention : Text
  pub expires_at : Text

pub record SyncOperation : Type 0 where
  pub id : Text
  pub object_id : Text
  pub object_kind : Text
  pub replica_id : Text
  pub parents : List Text
  pub changes : Dict StateValue
  pub storage_policy : StoragePolicy
  pub from : Text

pub data MergePolicy : Type 0 where
  mergeable_map authoritative : MergePolicy

pub data TargetKind : Type 0 where
  local cloud : TargetKind

pub record Target : Type 0 where
  pub kind : TargetKind
  pub device_id : Text
  pub region : Text
  pub agent_id : Text
  pub at : Text

pub record SyncObject : Type 0 where
  pub id : Text
  pub kind : Text
  pub state : Dict StateValue
  pub operation_ids : List Text

pub record SyncConflict : Type 0 where
  pub object_id : Text
  pub object_kind : Text
  pub candidates : List Text

pub record Synchronized : Type 0 where
  pub objects : List SyncObject
  pub conflicts : List SyncConflict
  pub rejected : List (Text × Text)

-- The tests on the kind of the target, in the code's order.
locality_denial : Locality → TargetKind → Option Text
locality_denial local_only cloud = some (text "local-only")
locality_denial cloud_required local = some (text "cloud-required")
locality_denial ephemeral cloud = some (text "ephemeral")
locality_denial _ _ = none

abbrev pub excludes : List Text → Text → Bool
excludes allowed x = ltb 0 (length allowed) && not (member x allowed)

pub policy_denial : StoragePolicy → Target → Text → Option Text
unfolding locality_denial
policy_denial policy target at = elim (locality_denial policy.locality target.kind) [
  | some denial ↦ some denial
  | none ↦
      if text_le policy.expires_at at
      then some (text "expired")
      else if excludes policy.allowed_devices target.device_id
      then some (text "device-not-allowed")
      else if excludes policy.allowed_regions target.region
      then some (text "region-not-allowed")
      else if excludes policy.allowed_agents target.agent_id
      then some (text "agent-not-allowed")
      else none
]

-- `Object.entries` of the changes set into the state, one after the other.
apply_changes : Dict StateValue → Dict StateValue → Dict StateValue
apply_changes state [] = state
apply_changes state ((key, value) ∷ rest) = apply_changes (set key value state) rest

merged_state : Dict StateValue → List SyncOperation → Dict StateValue
unfolding apply_changes
merged_state state [] = state
merged_state state (o ∷ os) = merged_state (apply_changes state o.changes) os

-- The groups by object, in the order of their first operation.
pub group : Dict (List SyncOperation) → List SyncOperation → Dict (List SyncOperation)
group groups [] = groups
group groups (o ∷ os) =
    group (set o.object_id (or_default (get o.object_id groups) [] ++ o ∷ []) groups) os

flat_parents : List SyncOperation → List Text
flat_parents [] = []
flat_parents (o ∷ os) = o.parents ++ flat_parents os

-- The rejected operations with their reasons, and the accepted ones.
pub split : Target → Text → List SyncOperation → List SyncOperation × List (Text × Text)
split target at [] = ([], [])
split target at (o ∷ os) =
    let (accepted, rejected) = split target at os in
    elim (policy_denial o.storage_policy target at) [
      | none ↦ (o ∷ accepted, rejected)
      | some denial ↦ (accepted, (o.id, denial) ∷ rejected)
    ]

module _ ⦃h : Host⦄ where
  pub define_storage_policy : StoragePolicy → Result StoragePolicy
  define_storage_policy input = do
    devices ← unique (text "allowed devices") input.allowed_devices
    regions ← unique (text "allowed regions") input.allowed_regions
    agents ← unique (text "allowed agents") input.allowed_agents
    encryption ← required_text (text "encryption policy") input.encryption
    retention ← required_text (text "retention policy") input.retention
    expires_at ← normalize_instant requires_offset input.expires_at
    ok (record {
      locality = input.locality;
      allowed_devices = devices;
      allowed_regions = regions;
      allowed_agents = agents;
      encryption = encryption;
      retention = retention;
      expires_at = expires_at;
    })

  sorted_entries {ℓ} : {V : Type ℓ} → Dict V → Dict V
  sorted_entries value = sort (λ left right. h.locale_compare left.0 right.0) value

  pub create_sync_operation : SyncOperation → Result SyncOperation
  unfolding sorted_entries
  create_sync_operation input = do
    throw_if (length input.changes == 0) type_error (text "sync changes must not be empty")
    id ← prefixed (text "sync operation id") input.id (text "sync-op:")
    object_id ← namespaced (text "sync object id") input.object_id
    object_kind ← required_text (text "sync object kind") input.object_kind
    replica_id ← namespaced (text "replica id") input.replica_id
    named ←
        map_result (λ parent. prefixed (text "sync parent") parent (text "sync-op:")) input.parents
    parents ← unique (text "sync parents") named
    storage_policy ← define_storage_policy input.storage_policy
    from ← normalize_instant requires_offset input.from
    ok (record {
      id = id;
      object_id = object_id;
      object_kind = object_kind;
      replica_id = replica_id;
      parents = parents;
      changes = sorted_entries input.changes;
      storage_policy = storage_policy;
      from = from;
    })

  unfoldable pub compare_operations : SyncOperation → SyncOperation → Ordering
  compare_operations left right =
      or_else (h.locale_compare left.from right.from) (h.locale_compare left.id right.id)

  authoritative_heads : List SyncOperation → List SyncOperation
  unfolding flat_parents
  authoritative_heads operations =
      sort compare_operations (keep (λ o. not (member o.id (flat_parents operations))) operations)

  object_of : Text → Text → List SyncOperation → SyncObject
  unfolding merged_state sorted_entries
  object_of object_id kind operations = record {
    id = object_id;
    kind = kind;
    state = sorted_entries (merged_state [] (sort compare_operations operations));
    operation_ids = sort compare_units (map (λ (o : SyncOperation). o.id) operations);
  }

  -- What one group gives: an object, or a conflict that is left to an explicit resolution.
  pub data Outcome : Type 0 where
    merged : SyncObject → Outcome
    conflicting : SyncConflict → Outcome

  resolve : Text → Text → List SyncOperation → MergePolicy → Outcome
  unfolding authoritative_heads object_of
  resolve object_id kind operations mergeable_map = merged (object_of object_id kind operations)
  resolve object_id kind operations authoritative =
      let heads = authoritative_heads operations in
      if ltb 1 (length heads)
      then conflicting (record {
        object_id = object_id;
        object_kind = kind;
        candidates = map (λ (o : SyncOperation). o.id) heads;
      })
      else merged (object_of object_id kind operations)

  resolve_registered : Text → Text → List SyncOperation → Option MergePolicy → Result Outcome
  unfolding resolve
  resolve_registered object_id kind operations none =
      raise plain_error (text "merge policy is not registered for " ++ kind)
  resolve_registered object_id kind operations (some policy) =
      ok (resolve object_id kind operations policy)

  -- The body of the loop over the groups; a group is never empty.
  pub resolve_group : Dict MergePolicy → Text × List SyncOperation → Result Outcome
  unfolding resolve_registered
  resolve_group policies (object_id, operations) =
      let kinds = map (λ (o : SyncOperation). o.object_kind) operations in
      let kind = or_default (first kinds) [] in
      do
        throw_if (not (length (add_all [] kinds) == 1)) plain_error
            (text "object kind changed across synchronization history: " ++ object_id)
        resolve_registered object_id kind operations (get kind policies)

  pub objects_of : List Outcome → List SyncObject
  objects_of [] = []
  objects_of (merged o ∷ os) = o ∷ objects_of os
  objects_of (conflicting c ∷ os) = objects_of os

  pub conflicts_of : List Outcome → List SyncConflict
  conflicts_of [] = []
  conflicts_of (merged o ∷ os) = conflicts_of os
  conflicts_of (conflicting c ∷ os) = c ∷ conflicts_of os

  pub synchronize : Dict MergePolicy → List SyncOperation → Target → Result Synchronized
  unfolding group resolve_group objects_of conflicts_of sorted_entries
  synchronize policies input target = do
    at ← normalize_instant requires_offset target.at
    let (accepted, rejected) = split target at (sort compare_operations input) in
        do
          outcomes ← map_result (resolve_group policies) (sorted_entries (group [] accepted))
          ok (record {
            objects = objects_of outcomes;
            conflicts = conflicts_of outcomes;
            rejected = sorted_entries rejected;
          })
