-- ===== src/Identity/Registry/Tests.antt =====
-- Runs of the identity registry, and the theorems at concrete registries.
use woyengi.Identity.Registry.{match_status, merge_history}
use woyengi.Base.{
  Option, ℕ, none, List, [], ◌∷◌, Text, text, text_discrete, ok, ◌≡◌, ◌≢◌, refl, ite, Distinct,
  compare_units, raise, plain_error, ◌++◌, required_text, trim, map_result, keep,
}
use woyengi.Base.Dict.{get, set, delete, add, add_all}
use woyengi.Base.Sort.{sort}
use woyengi.Core.{Authority}
use woyengi.Identity.Operations.{
  Operation, OperationBase, entity_created, alias_added, entities_merged, entity_split, external_id,
  name, compare_operations, normalize_alias,
}
use woyengi.Identity.Registry.{
  Registry, empty, apply, apply_all, canonical, resolve_alias, replay, history,
}
use woyengi.Identity.Registry.Aliases.{Resolves, resolve_alias-Resolves}
use woyengi.Identity.Registry.Invariant.{IsWellFormed, apply_all-IsWellFormed, empty-IsWellFormed}
use woyengi.Identity.Registry.Merging.{
  canonical_total, canonical-merge, merge_together, canonical-merge_split, merge_again-split,
}
use woyengi.Identity.Registry.Replaying.{ids, apply_all-recorded, replay-history}
use woyengi.Samples.{plain_host, plain_host-IsConsistent, no_provenance, some_authority, value_or}

abbrev at : ℕ → OperationBase
at n = record { id = n ∷ []; from = n ∷ []; provenance = no_provenance }

abbrev ann : Text
ann = b'a' ∷ []

abbrev ben : Text
ben = b'b' ∷ []

abbrev cay : Text
cay = b'c' ∷ []

abbrev alias_x : Text
alias_x = b'x' ∷ []

abbrev created : List Operation
created =
    entity_created (at 1) ann
    ∷ entity_created (at 2) ben
    ∷ entity_created (at 3) cay
    ∷ alias_added (at 4) ann alias_x name
    ∷ alias_added (at 5) ben alias_x external_id
    ∷ []

abbrev merge_ann_ben : Operation
merge_ann_ben = entities_merged (at 6) ann ben none some_authority

abbrev merge_cay_ben : Operation
merge_cay_ben = entities_merged (at 7) cay ben none some_authority

abbrev split_ben : Operation
split_ben = entity_split (at 8) ben some_authority

abbrev apart : Registry
apart = value_or empty (apply_all empty created)

abbrev merged : Registry
merged = value_or empty (apply apart merge_ann_ben)

abbrev moved : Registry
moved = value_or empty (apply merged merge_cay_ben)

-- The entities of an alias before and after a merge, and after a second merge and a split.
runs :
    (resolve_alias apart (text "X") ≡ ok (ann ∷ ben ∷ []))
    × (resolve_alias merged (text " x ") ≡ ok (ann ∷ []))
    × (resolve_alias moved alias_x ≡ ok (ann ∷ cay ∷ []))
    × (canonical (value_or empty (apply moved split_ben)).merged_into ben ≡ ok ben)
unfolding resolve_alias normalize_alias text apply apply_all canonical empty sort compare_units
    add_all add get set delete text_discrete required_text trim map_result
runs = (refl, refl, refl, refl)

-- A merge of two entities that resolve together is refused.
refused :
    apply merged (entities_merged (at 9) ben ann none some_authority)
    ≡ raise plain_error (text "cannot merge identities that already resolve together")
unfolding apply apply_all canonical empty add get set text_discrete
refused = refl

apart-IsWellFormed : IsWellFormed apart
unfolding apply apply_all empty add get set text_discrete
apart-IsWellFormed = apply_all-IsWellFormed empty apart created refl empty-IsWellFormed

merged-IsWellFormed : IsWellFormed merged
unfolding apply apply_all canonical empty add get set text_discrete
merged-IsWellFormed =
    apply_all-IsWellFormed empty merged (created ++ merge_ann_ben ∷ []) refl empty-IsWellFormed

canonical_total_example :
    (root : Text) × (canonical apart.merged_into ben ≡ ok root)
    × (get root apart.merged_into ≡ none)
unfolding apply apply_all empty add get set text_discrete
canonical_total_example = canonical_total created apart refl ben

canonical-merge_example :
    canonical merged.merged_into ben ≡ ok (ite (text_discrete ben ben) ann ben)
unfolding apply apply_all canonical empty add get set text_discrete
canonical-merge_example =
    canonical-merge apart merged (at 6) ann ben none some_authority apart-IsWellFormed refl refl ann
      ben ben refl refl

merge_together_example :
    (root : Text) × (canonical apart.merged_into ann ≡ ok root)
    × (canonical merged.merged_into ann ≡ ok root)
    × (canonical merged.merged_into ben ≡ ok root)
    × ((s : Registry) (b2 : OperationBase) (p2 : Option Text) (a2 : Authority)
        → apply merged (entities_merged b2 ann ben p2 a2) ≢ ok s)
    × ((s : Registry) (b2 : OperationBase) (p2 : Option Text) (a2 : Authority)
        → apply merged (entities_merged b2 ben ann p2 a2) ≢ ok s)
unfolding apply apply_all canonical empty add get set text_discrete
merge_together_example =
    merge_together apart merged (at 6) ann ben none some_authority apart-IsWellFormed refl

canonical-merge_split_example :
    canonical (value_or empty (apply merged split_ben)).merged_into ben
    ≡ canonical apart.merged_into ben
unfolding apply apply_all canonical empty add get set delete text_discrete
canonical-merge_split_example =
    canonical-merge_split apart merged (at 6) ann ben none some_authority
      (value_or empty (apply merged split_ben)) (at 8) some_authority apart-IsWellFormed refl refl
      refl ben

merge_again-split_example :
    (canonical (value_or empty (apply moved split_ben)).merged_into ben ≡ ok ben)
    × (canonical merged.merged_into ben ≢ ok ben)
unfolding apply apply_all canonical empty add get set delete text_discrete
merge_again-split_example =
    merge_again-split merged moved (at 7) cay ben none some_authority
      (value_or empty (apply moved split_ben)) (at 8) some_authority merged-IsWellFormed ann refl
      refl refl

resolve_alias-Resolves_example :
    (found : List Text) × (resolve_alias merged alias_x ≡ ok found) × Resolves merged alias_x found
unfolding apply apply_all canonical empty add get set text_discrete normalize_alias required_text
    trim
resolve_alias-Resolves_example =
    resolve_alias-Resolves (created ++ merge_ann_ben ∷ []) merged refl alias_x alias_x refl

apply_all-recorded_example :
    (apart.operations ≡ created) × Distinct (ids created) × (apart.operation_ids ≡ ids created)
unfolding apply apply_all empty add get set text_discrete
apply_all-recorded_example = apply_all-recorded created apart refl

replay-history_example :
    (history merged ≡ sort compare_operations (merge_ann_ben ∷ created))
    × (replay (history merged) none ≡ ok merged)
unfolding apply apply_all canonical empty add get set text_discrete replay sort compare_units
    compare_operations keep
replay-history_example =
    replay-history plain_host-IsConsistent (merge_ann_ben ∷ created) merged refl

unknown_proposal : match_status apart (text "identity-op:9") ≡ none
unfolding match_status apply apply_all empty add get set text text_discrete
unknown_proposal = refl

keeps_merges : merge_history merged ben ≡ merge_ann_ben ∷ []
unfolding merge_history apply apply_all canonical empty add get set text_discrete sort
keeps_merges = refl
