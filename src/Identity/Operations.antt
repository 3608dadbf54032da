-- ===== src/Identity/Operations.antt =====
-- packages/identity/src/index.ts: the identity operations and the functions that validate them.
use woyengi.Base.{
  Option, none, some, Text, text, ◌||◌, Result, ok, range_error, ◌>>=◌, ◌>>◌, throw_if, Host,
  required_text, prefixed, normalize_instant, explicit_offset, Ordering, or_else,
}
use woyengi.Base.Number.{Number, number_lt, number_zero, number_one}
use woyengi.Core.{Provenance, Authority}

pub record OperationBase : Type 0 where
  pub id : Text
  pub from : Text
  pub provenance : Provenance

pub data AliasKind : Type 0 where
  name email handle external_id other : AliasKind

pub data Operation : Type 0 where
  entity_created : OperationBase → (entity_id : Text) → Operation
  alias_added : OperationBase → (entity_id alias_text : Text) → AliasKind → Operation
  match_proposed :
      OperationBase
      → (left_entity_id right_entity_id : Text) → (score : Number) → (rationale : Text) → Operation
  entities_merged :
      OperationBase
      → (canonical_entity_id merged_entity_id : Text) → (proposal_id : Option Text) → Authority
      → Operation
  entity_split : OperationBase → (entity_id : Text) → Authority → Operation

abbrev pub base_of : Operation → OperationBase
base_of (entity_created b e) = b
base_of (alias_added b e a k) = b
base_of (match_proposed b l r s t) = b
base_of (entities_merged b c m p a) = b
base_of (entity_split b e a) = b

pub record OperationInput : Type 0 where
  pub id : Text
  pub recorded_at : Text
  pub provenance : Provenance

operation_id : Text → Result Text
operation_id value = prefixed (text "identity operation id") value (text "identity-op:")

entity_id : Text → Result Text
entity_id value = prefixed (text "entity id") value (text "entity:")

clone_authority : Authority → Result Authority
clone_authority value = do
  basis ← required_text (text "authority basis") value.basis
  ok (record value { basis = basis })

optional_operation_id : Option Text → Result (Option Text)
unfolding operation_id
optional_operation_id none = ok none
optional_operation_id (some p) = do id ← operation_id p; ok (some id)

module _ ⦃h : Host⦄ where
  base : OperationInput → Result OperationBase
  unfolding operation_id
  base input = do
    id ← operation_id input.id
    from ← normalize_instant explicit_offset input.recorded_at
    ok (record { id = id; from = from; provenance = input.provenance })

  unfoldable pub normalize_alias : Text → Result Text
  normalize_alias value = do
    normalized ← required_text (text "alias") value
    ok (h.to_lower normalized)

  unfoldable pub create_entity_operation : OperationInput → Text → Result Operation
  unfolding base entity_id
  create_entity_operation input entity = do
    b ← base input
    e ← entity_id entity
    ok (entity_created b e)

  unfoldable pub add_alias_operation : OperationInput → Text → Text → AliasKind → Result Operation
  unfolding base entity_id normalize_alias
  add_alias_operation input entity alias_text kind = do
    b ← base input
    e ← entity_id entity
    a ← normalize_alias alias_text
    ok (alias_added b e a kind)

  unfoldable pub propose_match_operation :
      OperationInput → Text → Text → Number → Text → Result Operation
  unfolding base entity_id
  propose_match_operation input left right score rationale = do
    throw_if (number_lt score number_zero || number_lt number_one score) range_error
        (text "identity match score must be between 0 and 1")
    b ← base input
    l ← entity_id left
    r ← entity_id right
    t ← required_text (text "rationale") rationale
    ok (match_proposed b l r score t)

  unfoldable pub merge_entities_operation :
      OperationInput → Text → Text → Option Text → Authority → Result Operation
  unfolding base entity_id optional_operation_id clone_authority
  merge_entities_operation input canonical merged proposal authority = do
    b ← base input
    c ← entity_id canonical
    m ← entity_id merged
    p ← optional_operation_id proposal
    a ← clone_authority authority
    ok (entities_merged b c m p a)

  unfoldable pub split_entity_operation : OperationInput → Text → Authority → Result Operation
  unfolding base entity_id clone_authority
  split_entity_operation input entity authority = do
    b ← base input
    e ← entity_id entity
    a ← clone_authority authority
    ok (entity_split b e a)

  unfoldable pub compare_operations : Operation → Operation → Ordering
  compare_operations left right =
      or_else (h.locale_compare (base_of left).from (base_of right).from)
        (h.locale_compare (base_of left).id (base_of right).id)
