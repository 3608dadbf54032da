-- ===== src/Core/Creation.antt =====
-- packages/core/src/index.ts: `createEvidence`, `createClaim`, `createLifecycleTransition` and the
-- validation that they share. The fields that an input may leave out are options.
pub mod Intervals
pub mod Tests
use woyengi.Base.{
  ℕ, Option, none, some, List, [], ◌∷◌, ◌++◌, Text, text, Bool, true, false, not, ◌||◌, ◌&&◌, ◌==◌,
  leb, Result, ok, raise, type_error, range_error, ◌>>=◌, ◌>>◌, throw_if, map_result, or_default,
  text_le, starts_with, Host, required_text, prefixed, namespaced, normalize_instant,
  explicit_offset,
}
use woyengi.Base.Number.{Double, finite, double_lt, number_zero, number_one}
use woyengi.Core.{
  LifecycleStatus, provisional, StateValue, TimeInterval, Provenance, Authority, EvidenceRecord,
  ClaimRecord, LifecycleTransitionRecord,
}

pub record CreateEvidenceInput : Type 0 where
  pub id : Text
  pub source_id : Text
  pub locator : Text
  pub recorded_at : Text
  pub provenance : Option Provenance
  pub lifecycle : Option LifecycleStatus

pub record CreateClaimInput : Type 0 where
  pub id : Text
  pub subject : Text
  pub predicate : Text
  pub object_value : StateValue
  pub valid_time : TimeInterval
  pub recorded_at : Text
  pub observation_ids : Option (List Text)
  pub evidence_ids : Option (List Text)
  pub provenance : Option Provenance
  pub authority : Authority
  pub confidence : Double
  pub lifecycle : Option LifecycleStatus

pub record CreateLifecycleTransitionInput : Type 0 where
  pub id : Text
  pub target_id : Text
  pub status : LifecycleStatus
  pub reason : Text
  pub recorded_at : Text
  pub provenance : Option Provenance
  pub authority : Authority

-- `input?.derivedFrom ?? []` and `input?.transformations ?? []`
abbrev pub provenance_of : Option Provenance → Provenance
provenance_of none = record { derived_from = []; transformations = [] }
provenance_of (some p) = p

pub record_id : Text → Text → Result Text
record_id kind value = prefixed (kind ++ text " id") value (kind ++ text ":")

prefixed_record_id : Text → Text → Text → Result Text
prefixed_record_id kind prefix value = do
  normalized ← required_text (kind ++ text " id") value
  throw_if (not (starts_with normalized (prefix ++ text ":"))) type_error
      (kind ++ text " id must start with " ++ prefix ++ text ":")
  ok normalized

is_letter : ℕ → Bool
is_letter c = (leb b'a' c && leb c b'z') || (leb b'A' c && leb c b'Z')

is_line_end : ℕ → Bool
is_line_end c = c == 10 || c == 13 || c == 8232 || c == 8233

-- `[a-z0-9-]*:.+`, in both cases
qualified_rest : Text → Bool
unfolding is_letter is_line_end
qualified_rest [] = false
qualified_rest (c ∷ []) = false
qualified_rest (c ∷ d ∷ rest) =
    (c == b':' && not (is_line_end d))
    || ((is_letter c || (leb b'0' c && leb c b'9') || c == b'-') && qualified_rest (d ∷ rest))

is_qualified : Text → Bool
unfolding qualified_rest is_letter
is_qualified [] = false
is_qualified (c ∷ rest) = is_letter c && qualified_rest rest

generic_record_id : Text → Result Text
unfolding is_qualified
generic_record_id value = do
  normalized ← required_text (text "target record id") value
  throw_if (not (is_qualified normalized)) type_error
      (text "target record id must be namespace-qualified")
  ok normalized

pub entity_id : Text → Result Text
entity_id value = prefixed (text "entity id") value (text "entity:")

optional_principal : Option Text → Result (Option Text)
unfolding entity_id
optional_principal none = ok none
optional_principal (some p) = do e ← entity_id p; ok (some e)

-- A level is finite, as every number here.
pub authority_of : Authority → Result Authority
unfolding optional_principal
authority_of value = do
  basis ← required_text (text "authority.basis") value.basis
  principal ← optional_principal value.principal
  ok (record { level = value.level; basis = basis; principal = principal })

module _ ⦃h : Host⦄ where
  pub bounded_interval : Text → Option Text → Result TimeInterval
  bounded_interval from none = ok (record { from = from; to = none })
  bounded_interval from (some t) = do
    to ← normalize_instant explicit_offset t
    throw_if (text_le to from) range_error (text "time interval end must be after its start")
    ok (record { from = from; to = some to })

  pub interval : Text → Option Text → Result TimeInterval
  unfolding bounded_interval
  interval from to = do
    normalized ← normalize_instant explicit_offset from
    bounded_interval normalized to

  pub create_evidence : CreateEvidenceInput → Result EvidenceRecord
  unfolding record_id
  create_evidence input = do
    id ← record_id (text "evidence") input.id
    source_id ← required_text (text "sourceId") input.source_id
    locator ← required_text (text "locator") input.locator
    transaction_time ← interval input.recorded_at none
    ok (record {
      id = id;
      source_id = source_id;
      locator = locator;
      transaction_time = transaction_time;
      provenance = provenance_of input.provenance;
      lifecycle = or_default input.lifecycle provisional;
    })

  pub create_claim : CreateClaimInput → Result ClaimRecord
  unfolding record_id entity_id authority_of
  create_claim input = do
    throw_if
        (double_lt input.confidence (finite number_zero)
          || double_lt (finite number_one) input.confidence)
        range_error (text "confidence must be between 0 and 1")
    id ← record_id (text "claim") input.id
    subject ← entity_id input.subject
    predicate ← namespaced (text "predicate") input.predicate
    valid_time ← interval input.valid_time.from input.valid_time.to
    transaction_time ← interval input.recorded_at none
    observation_ids ←
        map_result (record_id (text "observation")) (or_default input.observation_ids [])
    evidence_ids ← map_result (record_id (text "evidence")) (or_default input.evidence_ids [])
    authority ← authority_of input.authority
    ok (record {
      id = id;
      subject = subject;
      predicate = predicate;
      object_value = input.object_value;
      valid_time = valid_time;
      transaction_time = transaction_time;
      observation_ids = observation_ids;
      evidence_ids = evidence_ids;
      provenance = provenance_of input.provenance;
      authority = authority;
      confidence = input.confidence;
      lifecycle = or_default input.lifecycle provisional;
    })

  pub create_lifecycle_transition :
      CreateLifecycleTransitionInput → Result LifecycleTransitionRecord
  unfolding prefixed_record_id generic_record_id authority_of
  create_lifecycle_transition input = do
    id ← prefixed_record_id (text "lifecycle-transition") (text "lifecycle") input.id
    target_id ← generic_record_id input.target_id
    reason ← required_text (text "reason") input.reason
    transaction_time ← interval input.recorded_at none
    authority ← authority_of input.authority
    ok (record {
      id = id;
      target_id = target_id;
      status = input.status;
      reason = reason;
      transaction_time = transaction_time;
      provenance = provenance_of input.provenance;
      authority = authority;
    })
