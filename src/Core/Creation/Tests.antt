-- ===== src/Core/Creation/Tests.antt =====
-- Runs of the constructors of canonical records.
use woyengi.Base.{
  none, some, [], ◌∷◌, text, text_discrete, ok, raise, range_error, type_error, ◌≡◌, refl,
  required_text, prefixed, namespaced, normalize_instant, trim, starts_with, includes,
  compare_units, map_result,
}
use woyengi.Base.Number.{finite, nan, pos, number_one}
use woyengi.Core.{ClaimRecord, null, verified, provisional}
use woyengi.Core.Creation.{
  CreateClaimInput, create_claim, create_evidence, create_lifecycle_transition, interval,
  bounded_interval, record_id, entity_id, authority_of, optional_principal, generic_record_id,
  prefixed_record_id, is_qualified, qualified_rest, is_letter, is_line_end,
}
use woyengi.Core.Creation.Intervals.{IsClaim, create_claim-IsClaim}
use woyengi.Samples.{plain_host, no_provenance, some_authority}

abbrev input : CreateClaimInput
input = record {
  id = text "claim:c";
  subject = text "entity:e";
  predicate = text "p:q";
  object_value = null;
  valid_time = record { from = text "1Z"; to = some (text "2Z") };
  recorded_at = text "3Z";
  observation_ids = none;
  evidence_ids = some (text "evidence:e" ∷ []);
  provenance = none;
  authority = some_authority;
  confidence = finite (pos 1);
  lifecycle = none;
}

abbrev claim : ClaimRecord
claim = record {
  id = text "claim:c";
  subject = text "entity:e";
  predicate = text "p:q";
  object_value = null;
  valid_time = record { from = text "1Z"; to = some (text "2Z") };
  transaction_time = record { from = text "3Z"; to = none };
  observation_ids = [];
  evidence_ids = text "evidence:e" ∷ [];
  provenance = no_provenance;
  authority = some_authority;
  confidence = finite (pos 1);
  lifecycle = provisional;
}

creates : create_claim input ≡ ok claim
unfolding create_claim interval bounded_interval record_id entity_id authority_of optional_principal
    required_text prefixed namespaced normalize_instant trim starts_with includes compare_units
    map_result text text_discrete number_one
creates = refl

-- NaN is not refused.
creates_nan :
    create_claim (record input { confidence = nan }) ≡ ok (record claim { confidence = nan })
unfolding create_claim interval bounded_interval record_id entity_id authority_of optional_principal
    required_text prefixed namespaced normalize_instant trim starts_with includes compare_units
    map_result text text_discrete number_one
creates_nan = refl

create_claim-IsClaim_example : IsClaim input claim
create_claim-IsClaim_example = create_claim-IsClaim input claim creates

refuses_reversed :
    interval (text "2Z") (some (text "1Z"))
    ≡ raise range_error (text "time interval end must be after its start")
unfolding interval bounded_interval normalize_instant compare_units text text_discrete
refuses_reversed = refl

refuses_unqualified :
    (create_evidence (record {
      id = text "claim:c";
      source_id = [];
      locator = [];
      recorded_at = [];
      provenance = none;
      lifecycle = none;
    })
      ≡ raise type_error (text "evidence id must start with evidence:"))
    × (create_lifecycle_transition (record {
      id = text "lifecycle:l";
      target_id = text "c:";
      status = verified;
      reason = [];
      recorded_at = [];
      provenance = none;
      authority = some_authority;
    })
        ≡ raise type_error (text "target record id must be namespace-qualified"))
unfolding create_evidence create_lifecycle_transition record_id generic_record_id prefixed_record_id
    is_qualified qualified_rest is_letter is_line_end required_text prefixed trim starts_with text
    text_discrete
refuses_unqualified = (refl, refl)
