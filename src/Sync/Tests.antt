-- ===== src/Sync/Tests.antt =====
-- Runs of the sync engine, and its theorem at two operations.
use woyengi.Permissions.Capability.{unique}
use woyengi.Base.{type_error, required_text, trim}
use woyengi.Sync.{define_storage_policy, create_sync_operation}
use woyengi.Base.{
  [], ◌∷◌, Text, text, ok, raise, ◌≡◌, refl, inl, inr, text_discrete, normalize_instant, keep,
  compare_units, map_result, Ordering, sym, ap, ◌∙◌,
}
use woyengi.Base.Dict.{get, set, member, add_all, add}
use woyengi.Base.Reordering.{exchanged, TellsApart}
use woyengi.Base.Sort.{sort, insert, insert_all}
use woyengi.Base.Number.{pos}
use woyengi.Core.{number}
use woyengi.Sync.{
  SyncOperation, StoragePolicy, cloud_allowed, authoritative, mergeable_map, Target, cloud,
  synchronize, policy_denial, compare_operations, split, resolve_group, group, objects_of,
  conflicts_of,
}
use woyengi.Sync.Converging.{synchronize-Reordered}
use woyengi.Samples.{plain_host, plain_host-IsConsistent}

abbrev policy : StoragePolicy
policy = record {
  locality = cloud_allowed;
  allowed_devices = [];
  allowed_regions = [];
  allowed_agents = [];
  encryption = text "e";
  retention = text "r";
  expires_at = text "9Z";
}

abbrev operation : Text → Text → Text → SyncOperation
operation id from kind = record {
  id = id;
  object_id = text "object:o";
  object_kind = kind;
  replica_id = text "replica:r";
  parents = [];
  changes = (text "k", number (pos 1)) ∷ [];
  storage_policy = policy;
  from = from;
}

abbrev first_op : SyncOperation
first_op = operation (text "sync-op:a") (text "1Z") (text "note")

abbrev second_op : SyncOperation
second_op = operation (text "sync-op:b") (text "2Z") (text "note")

abbrev target : Target
target = record {
  kind = cloud;
  device_id = text "device:d";
  region = text "r";
  agent_id = text "agent:a";
  at = text "5Z";
}

two_heads :
    synchronize ((text "note", authoritative) ∷ []) (second_op ∷ first_op ∷ []) target
    ≡ ok (record {
      objects = [];
      conflicts =
          record {
            object_id = text "object:o";
            object_kind = text "note";
            candidates = text "sync-op:a" ∷ text "sync-op:b" ∷ [];
          }
          ∷ [];
      rejected = [];
    })
unfolding synchronize normalize_instant text text_discrete map_result get set member add_all add
    sort insert insert_all keep compare_units compare_operations split policy_denial resolve_group
    group objects_of conflicts_of
two_heads = refl

apart : TellsApart compare_operations (first_op ∷ second_op ∷ [])
unfolding compare_operations compare_units text
apart a b (inl p) (inl q) e = p ∙ sym q
apart a b (inr (inl p)) (inr (inl q)) e = p ∙ sym q
apart a b (inl p) (inr (inl q)) e =
    let k : compare_operations first_op second_op ≡ Ordering.eq =
      sym (ap (λ z. compare_operations z b) p ∙ ap (λ z. compare_operations first_op z) q) ∙ e in
    absurd (differ k)
  where
    differ : Ordering.lt ≡ Ordering.eq → ⊥
    differ k = cc
apart a b (inr (inl p)) (inl q) e =
    let k : compare_operations second_op first_op ≡ Ordering.eq =
      sym (ap (λ z. compare_operations z b) p ∙ ap (λ z. compare_operations second_op z) q) ∙ e in
    absurd (differ k)
  where
    differ : Ordering.gt ≡ Ordering.eq → ⊥
    differ k = cc
apart a b (inl p) (inr (inr i)) e = absurd i
apart a b (inr (inl p)) (inr (inr i)) e = absurd i
apart a b (inr (inr i)) j e = absurd i

synchronize-Reordered_example :
    synchronize ((text "note", mergeable_map) ∷ []) (first_op ∷ second_op ∷ []) target
    ≡ synchronize ((text "note", mergeable_map) ∷ []) (second_op ∷ first_op ∷ []) target
synchronize-Reordered_example =
    synchronize-Reordered plain_host-IsConsistent ((text "note", mergeable_map) ∷ []) target
      (first_op ∷ second_op ∷ []) (second_op ∷ first_op ∷ []) (exchanged first_op second_op [])
      apart

refuses_no_change :
    create_sync_operation (record first_op { changes = [] })
    ≡ raise type_error (text "sync changes must not be empty")
unfolding create_sync_operation
refuses_no_change = refl

accepts_policy : define_storage_policy policy ≡ ok policy
unfolding define_storage_policy required_text trim normalize_instant map_result sort text
    text_discrete add_all insert_all unique
accepts_policy = refl
