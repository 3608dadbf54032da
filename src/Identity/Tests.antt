-- ===== src/Identity/Tests.antt =====
-- Runs of the constructors of identity operations.
use woyengi.Base.{
  none, text, text_discrete, ok, raise, range_error, ◌≡◌, refl, required_text, prefixed,
  normalize_instant, trim, starts_with,
}
use woyengi.Base.Number.{negsuc}
use woyengi.Identity.Operations.{
  OperationInput, OperationBase, entity_created, alias_added, entities_merged, entity_split,
  create_entity_operation, add_alias_operation, propose_match_operation, merge_entities_operation,
  split_entity_operation, normalize_alias, AliasKind,
}
use woyengi.Samples.{plain_host, no_provenance, some_authority}

abbrev input : OperationInput
input = record { id = text " identity-op:1 "; recorded_at = text "1Z"; provenance = no_provenance }

abbrev base_1 : OperationBase
base_1 = record { id = text "identity-op:1"; from = text "1Z"; provenance = no_provenance }

creates :
    (create_entity_operation input (text "entity:a") ≡ ok (entity_created base_1 (text "entity:a")))
    × (split_entity_operation input (text "entity:a") some_authority
        ≡ ok (entity_split base_1 (text "entity:a") some_authority))
    × (merge_entities_operation input (text "entity:a") (text "entity:b") none some_authority
        ≡ ok (entities_merged base_1 (text "entity:a") (text "entity:b") none some_authority))
unfolding create_entity_operation split_entity_operation merge_entities_operation required_text
    prefixed normalize_instant trim starts_with text text_discrete
creates = (refl, refl, refl)

normalises_alias :
    (k : AliasKind)
    → add_alias_operation input (text "entity:a") (text " Ann ") k
      ≡ ok (alias_added base_1 (text "entity:a") (text "ann") k)
unfolding add_alias_operation required_text prefixed normalize_instant normalize_alias trim
    starts_with text text_discrete
normalises_alias k = refl

refuses_negative_score :
    propose_match_operation input (text "entity:a") (text "entity:b") (negsuc 0) (text "r")
    ≡ raise range_error (text "identity match score must be between 0 and 1")
unfolding propose_match_operation
refuses_negative_score = refl
