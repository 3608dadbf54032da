-- ===== src/Identity/Registry.antt =====
-- packages/identity/src/index.ts: `IdentityRegistry`. A method returns the registry after it; a
-- method that throws leaves the registry as it was, since it throws before its first change.
pub mod Resolution
pub mod Invariant
pub mod Merging
pub mod Aliases
pub mod Replaying
pub mod Tests
use woyengi.Base.{
  ℕ, zero, suc, Option, none, some, List, [], ◌∷◌, ◌++◌, map, Text, text, Bool, true, false, Result,
  ok, raise, plain_error, ◌>>=◌, ◌>>◌, throw_if, not, same, if◌then◌else◌, keep, length, text_le,
  or_default, is_some, Host, normalize_instant, explicit_offset, compare_units, map_result,
}
use woyengi.Base.Dict.{Dict, get, has, set, delete, member, add, add_all}
use woyengi.Base.Sort.{sort}
use woyengi.Identity.Operations.{
  Operation, entity_created, alias_added, match_proposed, entities_merged, entity_split,
  OperationBase, base_of, normalize_alias, compare_operations,
}

pub record Registry : Type 0 where
  pub entities : List Text
  pub aliases : Dict (List Text)
  pub proposals : Dict Operation
  pub confirmed_proposals : List Text
  pub merged_into : Dict Text
  pub merge_histories : Dict (List Operation)
  pub operations : List Operation
  pub operation_ids : List Text

pub empty : Registry
empty = record {
  entities = [];
  aliases = [];
  proposals = [];
  confirmed_proposals = [];
  merged_into = [];
  merge_histories = [];
  operations = [];
  operation_ids = [];
}

-- The loop of `#canonical`; `none` means that the fuel ran out.
pub canonical_loop : ℕ → Dict Text → List Text → Text → Option (Result Text)
canonical_loop zero m visited current = none
canonical_loop (suc fuel) m visited current = elim (get current m) [
  | none ↦ some (ok current)
  | some next ↦ elim (member current visited) [
    | true ↦ some (raise plain_error (text "identity merge cycle detected at " ++ current))
    | false ↦ canonical_loop fuel m (add current visited) next
  ]
]

-- One round for each merged entity, and one to see the end.
abbrev pub canonical_fuel : Dict Text → ℕ
canonical_fuel m = suc (length m)

abbrev out_of_fuel : Result Text
out_of_fuel = raise plain_error (text "canonical: out of fuel")

pub canonical : Dict Text → Text → Result Text
unfolding canonical_loop
canonical m entity = or_default (canonical_loop (canonical_fuel m) m [] entity) out_of_fuel

assert_entity : Registry → Text → Result (Unit {0})
assert_entity r entity =
    throw_if (not (member entity r.entities)) plain_error (text "entity does not exist: " ++ entity)

add_alias : Text → Text → Dict (List Text) → Dict (List Text)
add_alias alias_text entity aliases =
    set alias_text (add entity (or_default (get alias_text aliases) [])) aliases

append_merge_history : Text → Operation → Dict (List Operation) → Dict (List Operation)
append_merge_history entity operation histories =
    set entity (or_default (get entity histories) [] ++ operation ∷ []) histories

-- The check of `operation.proposalId`, with the confirmed proposals after it.
confirm : Registry → Option Text → Result (List Text)
confirm r none = ok r.confirmed_proposals
confirm r (some p) = do
  throw_if (not (has p r.proposals)) plain_error
      (text "identity match proposal does not exist: " ++ p)
  ok (add p r.confirmed_proposals)

apply_merge : Registry → Operation → Text → Text → Option Text → Result Registry
unfolding assert_entity confirm append_merge_history
apply_merge r operation canonical_id merged_id proposal = do
  assert_entity r canonical_id
  assert_entity r merged_id
  c ← canonical r.merged_into canonical_id
  m ← canonical r.merged_into merged_id
  throw_if (same c m) plain_error (text "cannot merge identities that already resolve together")
  confirmed ← confirm r proposal
  ok (record r {
    confirmed_proposals = confirmed;
    merged_into = set merged_id canonical_id r.merged_into;
    merge_histories = append_merge_history merged_id operation r.merge_histories;
  })

apply_split : Registry → Operation → Text → Result Registry
unfolding assert_entity append_merge_history
apply_split r operation entity = do
  assert_entity r entity
  throw_if (not (has entity r.merged_into)) plain_error (text "entity is not merged: " ++ entity)
  ok (record r {
    merged_into = delete entity r.merged_into;
    merge_histories = append_merge_history entity operation r.merge_histories;
  })

-- The `switch` of `apply`.
dispatch : Registry → Operation → Result Registry
unfolding assert_entity add_alias apply_merge apply_split
dispatch r (entity_created b e) = do
  throw_if (member e r.entities) plain_error (text "entity already exists: " ++ e)
  ok (record r { entities = add e r.entities })
dispatch r (alias_added b e a k) = do
  assert_entity r e
  ok (record r { aliases = add_alias a e r.aliases })
dispatch r (match_proposed b left right s t) = do
  assert_entity r left
  assert_entity r right
  ok (record r { proposals = set b.id (match_proposed b left right s t) r.proposals })
dispatch r (entities_merged b c m p a) = apply_merge r (entities_merged b c m p a) c m p
dispatch r (entity_split b e a) = apply_split r (entity_split b e a) e

pub apply : Registry → Operation → Result Registry
unfolding dispatch
apply r operation =
    let id = (base_of operation).id in
    do
      throw_if (member id r.operation_ids) plain_error
          (text "identity operation already exists: " ++ id)
      r' ← dispatch r operation
      ok (record r' {
        operation_ids = add id r'.operation_ids;
        operations = r'.operations ++ operation ∷ [];
      })

pub apply_all : Registry → List Operation → Result Registry
apply_all r [] = ok r
apply_all r (o ∷ os) = do r' ← apply r o; apply_all r' os

pub match_status : Registry → Text → Option Bool
match_status r p = if has p r.proposals then some (member p r.confirmed_proposals) else none

module _ ⦃h : Host⦄ where
  until_instant : Option Text → Result (Option Text)
  until_instant none = ok none
  until_instant (some t) = do u ← normalize_instant explicit_offset t; ok (some u)

  abbrev not_later : Option Text → Operation → Bool
  not_later none o = true
  not_later (some t) o = text_le (base_of o).from t

  pub replay : List Operation → Option Text → Result Registry
  unfolding until_instant
  replay operations until = do
    u ← until_instant until
    apply_all empty (sort compare_operations (keep (not_later u) operations))

  -- The owners' canonical entities, each once, in the order of `<`.
  pub resolve_alias : Registry → Text → Result (List Text)
  resolve_alias r alias_text = do
    a ← normalize_alias alias_text
    roots ← map_result (canonical r.merged_into) (or_default (get a r.aliases) [])
    ok (sort compare_units (add_all [] roots))

  pub merge_history : Registry → Text → List Operation
  merge_history r entity = sort compare_operations (or_default (get entity r.merge_histories) [])

  pub history : Registry → List Operation
  history r = sort compare_operations r.operations
