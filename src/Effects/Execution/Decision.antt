-- ===== src/Effects/Execution/Decision.antt =====
-- packages/effects/src/index.ts: `decide` and `selectVerification`.
use woyengi.Base.{
  Option, none, some, List, [], ◌∷◌, ◌++◌, map, Text, text, Bool, true, false, not, ◌||◌, ◌&&◌,
  same, is_some, ltb, length, ◌==◌, find, keep, all, any, Host, prefixed, normalize_instant,
  requires_offset, compare_units, if◌then◌else◌,
}
use woyengi.Base.Dict.{member, add}
use woyengi.Base.Doubles.{add_number}
use woyengi.Base.Number.{Number, number_lt, number_zero}
use woyengi.Base.Programs.{Program, attempt, finish, current, change, ◌>>=◌, ◌>>◌}
use woyengi.Base.Sort.{sort}
use mathlib.Core.List.{reverse}
use woyengi.Effects.Records.{
  semantic, external, ExpectedEffect, VerificationContract, ReceiptStatus, succeeded, failed,
  ExecutionReceipt, ObservedEffect, ReconciliationStatus, confirmed, diverged, uncertain,
  EffectReconciliation, ExecutionEvidenceReference, VerificationResult, VerificationStatus,
  verified, AcceptanceOutcome, AcceptanceStatus, accepted, refused, VerifiedSemanticCommit,
  outcome_accepted, outcome_rejected, semantic_committed, ExecutionAggregate,
}
use woyengi.Effects.Manifests.{unique_sorted}
use woyengi.Effects.Engines.{Engine}
use woyengi.Effects.Execution.{
  class_of, same_class, is_authorized, assert_unique, append, on_aggregate,
}

abbrev pub is_verified : VerificationStatus → Bool
is_verified s = elim s [ verified ↦ true | _ ↦ false ]

-- The first requirement that a result misses, in the order of the loop's tests.
unfoldable pub shortfall : VerificationContract → VerificationResult → Option Text
shortfall contract r =
    if not (is_verified r.status)
    then some (text "VERIFICATION_NOT_PASSED")
    else if contract.independent_verifier_required && not r.independent_from_provider
    then some (text "INDEPENDENT_VERIFICATION_REQUIRED")
    else if ltb contract.maximum_attempts r.attempt
    then some (text "VERIFICATION_ATTEMPT_LIMIT_EXCEEDED")
    else if not (same r.cost_currency contract.currency)
        || number_lt contract.maximum_cost r.cost_amount
    then some (text "VERIFICATION_BUDGET_EXCEEDED")
    else if not r.stop_condition_met
    then some (text "STOP_CONDITION_NOT_MET")
    else if not (all (λ id. member id r.evidence_ids) contract.required_evidence_ids)
    then some (text "VERIFICATION_EVIDENCE_INCOMPLETE")
    else none

unfoldable pub total_cost : Text → Number → List VerificationResult → Number
total_cost currency total [] = total
total_cost currency total (r ∷ rs) =
    total_cost currency
      (if same r.cost_currency currency then add_number total r.cost_amount else total) rs

-- The loop over the results, the latest first, with the reasons so far.
unfoldable pub search_results :
    VerificationContract
    → List Text
    → List VerificationResult
    → Option VerificationResult × List Text
search_results contract reasons [] = (none, reasons)
search_results contract reasons (r ∷ rs) = elim (shortfall contract r) [
  | none ↦ (some r, [])
  | some reason ↦ search_results contract (add reason reasons) rs
]

-- What the search gives, by whether the results together cost too much.
abbrev pub verdict :
    Bool → Option VerificationResult → List Text → Option VerificationResult × List Text
verdict true found reasons = (none, text "VERIFICATION_BUDGET_EXCEEDED" ∷ [])
verdict false none reasons = (none, reasons)
verdict false (some r) reasons = (some r, [])

unfoldable pub select_verification : ExecutionAggregate → Option VerificationResult × List Text
unfolding total_cost search_results
select_verification a =
    let contract = a.manifest.verification_contract in
    let search = search_results contract [] (reverse a.verifications) in
    verdict
      (number_lt contract.maximum_cost (total_cost contract.currency number_zero a.verifications))
      search.0
      (if length a.verifications == 0
        then text "MISSING_VERIFICATION" ∷ []
        else sort compare_units search.1)

abbrev pub reason_if : Bool → Text → List Text
reason_if test reason = if test then reason ∷ [] else []

abbrev pub latest_reconciliation : ExecutionAggregate → Text → Option EffectReconciliation
latest_reconciliation a id =
    find (λ (r : EffectReconciliation). same r.expected_effect_id id) (reverse a.reconciliations)

abbrev pub latest_observation : ExecutionAggregate → Text → Option ObservedEffect
latest_observation a id =
    find (λ (o : ObservedEffect). same o.expected_effect_id id) (reverse a.observed_effects)

abbrev pub status_reasons : ExpectedEffect → ReconciliationStatus → List Text
status_reasons e confirmed = []
status_reasons e diverged = (text "DIVERGED_EFFECT:" ++ e.id) ∷ []
status_reasons e uncertain =
    (if same_class (class_of e) external
      then text "UNCERTAIN_EXTERNAL_EFFECT:" ++ e.id
      else text "UNCERTAIN_EFFECT:" ++ e.id)
    ∷ []

unfoldable pub reconciliation_reasons : ExpectedEffect → Option EffectReconciliation → List Text
reconciliation_reasons e none = (text "MISSING_RECONCILIATION:" ++ e.id) ∷ []
reconciliation_reasons e (some r) = status_reasons e r.status

needs_review : ExpectedEffect → Option EffectReconciliation → Bool
needs_review e none = false
needs_review e (some r) = elim r.status [ uncertain ↦ same_class (class_of e) external | _ ↦ false ]

-- One round of the loop over the effects.
unfoldable pub effect_reasons : ExecutionAggregate → ExpectedEffect → List Text
unfolding reconciliation_reasons
effect_reasons a e =
    reason_if (not (is_some (latest_observation a e.id))) (text "MISSING_OBSERVATION:" ++ e.id)
    ++ reconciliation_reasons e (latest_reconciliation a e.id)

unfoldable pub all_effect_reasons : ExecutionAggregate → List ExpectedEffect → List Text
all_effect_reasons a [] = []
all_effect_reasons a (e ∷ es) = effect_reasons a e ++ all_effect_reasons a es

unfoldable pub missing_evidence : List Text → List Text → List Text
missing_evidence attached [] = []
missing_evidence attached (id ∷ ids) =
    reason_if (not (member id attached)) (text "MISSING_EVIDENCE:" ++ id)
    ++ missing_evidence attached ids

abbrev pub is_succeeded : ReceiptStatus → Bool
is_succeeded succeeded = true
is_succeeded failed = false

abbrev pub has_succeeded : Option ExecutionReceipt → Bool
has_succeeded none = false
has_succeeded (some r) = is_succeeded r.status

abbrev pub evidence_ids_of : ExecutionAggregate → List Text
evidence_ids_of a = map (λ (e : ExecutionEvidenceReference). e.id) a.evidence

-- The reasons against acceptance, those of the verification last.
unfoldable pub reasons_of : ExecutionAggregate → List Text
unfolding all_effect_reasons missing_evidence
reasons_of a =
    reason_if (ltb 0 (length a.semantic_commits)) (text "SEMANTIC_COMMIT_ALREADY_EXISTS")
    ++ (reason_if (not (is_authorized a.manifest.status)) (text "MANIFEST_NOT_AUTHORIZED")
        ++ (reason_if (not (has_succeeded a.receipt)) (text "EXECUTION_NOT_SUCCEEDED")
            ++ (all_effect_reasons a a.manifest.effect_plan.effects
                ++ (missing_evidence (evidence_ids_of a)
                      a.manifest.verification_contract.required_evidence_ids
                    ++ elim (select_verification a).0 [
                      | none ↦ (select_verification a).1
                      | some _ ↦ []
                    ]))))

pub record DecisionInput : Type 0 where
  pub id : Text
  pub outcome_id : Text
  pub semantic_commit_id : Text
  pub manifest_id : Text
  pub accepted_by_principal_id : Text
  pub recorded_at : Text

pub record AcceptanceResult : Type 0 where
  pub outcome : AcceptanceOutcome
  pub semantic_commit : Option VerifiedSemanticCommit

-- The verification under which the aggregate is accepted, if it is.
unfoldable pub acceptable : ExecutionAggregate → Option VerificationResult
acceptable a = if length (reasons_of a) == 0 then (select_verification a).0 else none

module _ ⦃h : Host⦄ where
  -- What `decide` does after an accepted outcome.
  unfoldable pub commit :
      DecisionInput
      → AcceptanceOutcome
      → VerificationResult
      → Text
      → Program ExecutionAggregate AcceptanceResult
  commit input outcome verification recorded_at = do
    a ← current
    id ←
        attempt
          (prefixed (text "semantic commit id") input.semantic_commit_id (text "semantic-commit:"))
    evidence_ids ← attempt (unique_sorted (text "semantic commit evidence ids") (evidence_ids_of a))
    let c : VerifiedSemanticCommit = record {
      id = id;
      manifest_id = a.manifest.id;
      correlation = a.manifest.correlation;
      action_intent_id = a.manifest.action_intent.id;
      acceptance_outcome_id = outcome.id;
      verification_result_id = verification.id;
      evidence_ids = evidence_ids;
      semantic_effect_ids =
          map (λ (e : ExpectedEffect). e.id)
            (keep (λ e. same_class (class_of e) semantic) a.manifest.effect_plan.effects);
      from = recorded_at;
    }
    assert_unique (λ (s : VerifiedSemanticCommit). s.id) a.semantic_commits id
        (text "semantic commit")
    change (λ b. record b { semantic_commits = b.semantic_commits ++ c ∷ [] })
    append semantic_committed id recorded_at
    finish (record { outcome = outcome; semantic_commit = some c })

  -- What `decide` does after the outcome is recorded.
  unfoldable pub conclude :
      DecisionInput
      → AcceptanceOutcome
      → Option VerificationResult
      → Text
      → Program ExecutionAggregate AcceptanceResult
  unfolding commit
  conclude input outcome none recorded_at = do
    append outcome_rejected outcome.id recorded_at
    finish (record { outcome = outcome; semantic_commit = none })
  conclude input outcome (some verification) recorded_at = do
    append outcome_accepted outcome.id recorded_at
    commit input outcome verification recorded_at

  abbrev outcome_status : Option VerificationResult → AcceptanceStatus
  outcome_status o = elim o [ none ↦ refused | some _ ↦ accepted ]

  unfoldable pub judge : DecisionInput → Program ExecutionAggregate AcceptanceResult
  unfolding conclude acceptable reasons_of needs_review
  judge input = do
    a ← current
    decision_id ←
        attempt (prefixed (text "acceptance decision id") input.id (text "acceptance-decision:"))
    recorded_at ← attempt (normalize_instant requires_offset input.recorded_at)
    id ←
        attempt
          (prefixed (text "acceptance outcome id") input.outcome_id (text "accepted-outcome:"))
    reasons ← attempt (unique_sorted (text "acceptance reasons") (reasons_of a))
    principal ← attempt (
        prefixed (text "accepting principal id") input.accepted_by_principal_id (text "principal:"))
    let outcome : AcceptanceOutcome = record {
      id = id;
      acceptance_decision_id = decision_id;
      manifest_id = a.manifest.id;
      correlation = a.manifest.correlation;
      status = outcome_status (acceptable a);
      reasons = reasons;
      review_required =
          any (λ (e : ExpectedEffect). needs_review e (latest_reconciliation a e.id))
            a.manifest.effect_plan.effects;
      accepted_by_principal_id = principal;
      verification_result_id = elim (select_verification a).0 [ none ↦ none | some v ↦ some v.id ];
      from = recorded_at;
    }
    change (λ b. record b { outcomes = b.outcomes ++ outcome ∷ [] })
    conclude input outcome (acceptable a) recorded_at

  unfoldable pub decide : DecisionInput → Program Engine AcceptanceResult
  unfolding judge
  decide input = on_aggregate input.manifest_id (judge input)
