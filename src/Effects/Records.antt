-- ===== src/Effects/Records.antt =====
-- packages/effects/src/index.ts: the records of a governed execution. The fields `kind` of the
-- records, which are constants, are left out.
use woyengi.Base.{ℕ, Option, List, Text, Bool}
use woyengi.Base.Number.{Number}

pub record ExecutionCorrelation : Type 0 where
  pub workspace_id : Text
  pub work_instance_id : Text
  pub work_episode_id : Text
  pub trace_id : Text

pub record ActionIntent : Type 0 where
  pub id : Text
  pub correlation : ExecutionCorrelation
  pub principal_id : Text
  pub objective : Text

pub data EffectClass : Type 0 where
  runtime semantic external : EffectClass

-- An effect as it is given: an object that may have the fields of any class.
pub record RawEffect : Type 0 where
  pub id : Text
  pub effect_class : EffectClass
  pub description : Text
  pub runtime_effect_lease_id : Option Text
  pub runtime_cleanup_only : Bool
  pub change_set_id : Option Text
  pub idempotency_key : Option Text
  pub reconciliation_required : Bool
  pub correction : Option Text

-- The part of an effect that depends on its class.
pub data EffectDetail : Type 0 where
  runtime_lease : Text → EffectDetail
  change_set : Text → EffectDetail
  external_key : Text → EffectDetail

pub record ExpectedEffect : Type 0 where
  pub id : Text
  pub description : Text
  pub detail : EffectDetail

pub record EffectPlan : Type 0 where
  pub id : Text
  pub action_intent_id : Text
  pub correlation : ExecutionCorrelation
  pub effects : List ExpectedEffect

pub data ControlDecisionKind : Type 0 where
  authority policy budget risk : ControlDecisionKind

pub data DecisionStatus : Type 0 where
  allowed denied : DecisionStatus

pub record ControlDecision : Type 0 where
  pub id : Text
  pub kind : ControlDecisionKind
  pub status : DecisionStatus
  pub reason : Text

pub record Decisions : Type 0 where
  pub authority_decision : ControlDecision
  pub policy_decision : ControlDecision
  pub budget_decision : ControlDecision
  pub risk_decision : ControlDecision

pub record VerificationContract : Type 0 where
  pub id : Text
  pub required_evidence_ids : List Text
  pub independent_verifier_required : Bool
  pub maximum_cost : Number
  pub currency : Text
  pub maximum_attempts : ℕ
  pub stop_condition : Text

pub data ManifestStatus : Type 0 where
  authorized blocked : ManifestStatus

pub record ExecutionManifest : Type 0 where
  pub id : Text
  pub correlation : ExecutionCorrelation
  pub action_intent : ActionIntent
  pub effect_plan : EffectPlan
  pub decisions : Decisions
  pub verification_contract : VerificationContract
  pub status : ManifestStatus
  pub from : Text

pub data ReceiptStatus : Type 0 where
  succeeded failed : ReceiptStatus

pub record ExecutionReceipt : Type 0 where
  pub id : Text
  pub manifest_id : Text
  pub correlation : ExecutionCorrelation
  pub provider_id : Text
  pub transport_status : Option ℕ
  pub status : ReceiptStatus
  pub from : Text

pub record ObservedEffect : Type 0 where
  pub id : Text
  pub manifest_id : Text
  pub expected_effect_id : Text
  pub effect_class : EffectClass
  pub correlation : ExecutionCorrelation
  pub provider_id : Text
  pub observation : Text
  pub from : Text

pub data ReconciliationStatus : Type 0 where
  confirmed diverged uncertain : ReconciliationStatus

pub data ReconciliationStrategy : Type 0 where
  in_process canonical_read immediate_reread eventual_observation webhook human_confirmation :
      ReconciliationStrategy

pub record EffectReconciliation : Type 0 where
  pub id : Text
  pub manifest_id : Text
  pub expected_effect_id : Text
  pub observed_effect_id : Text
  pub correlation : ExecutionCorrelation
  pub status : ReconciliationStatus
  pub strategy : ReconciliationStrategy
  pub reason : Text
  pub review_required : Bool
  pub from : Text

pub record ExecutionEvidenceReference : Type 0 where
  pub id : Text
  pub manifest_id : Text
  pub correlation : ExecutionCorrelation
  pub source : Text
  pub from : Text

pub data VerificationStatus : Type 0 where
  verified rejected inconclusive : VerificationStatus

pub record VerificationResult : Type 0 where
  pub id : Text
  pub manifest_id : Text
  pub correlation : ExecutionCorrelation
  pub verifier_id : Text
  pub status : VerificationStatus
  pub independent_from_provider : Bool
  pub evidence_ids : List Text
  pub attempt : ℕ
  pub cost_amount : Number
  pub cost_currency : Text
  pub stop_condition_met : Bool
  pub from : Text

pub record CompensatingAction : Type 0 where
  pub id : Text
  pub manifest_id : Text
  pub expected_external_effect_id : Text
  pub correlation : ExecutionCorrelation
  pub reason : Text
  pub from : Text

pub data AcceptanceStatus : Type 0 where
  accepted refused : AcceptanceStatus

pub record AcceptanceOutcome : Type 0 where
  pub id : Text
  pub acceptance_decision_id : Text
  pub manifest_id : Text
  pub correlation : ExecutionCorrelation
  pub status : AcceptanceStatus
  pub reasons : List Text
  pub review_required : Bool
  pub accepted_by_principal_id : Text
  pub verification_result_id : Option Text
  pub from : Text

pub record VerifiedSemanticCommit : Type 0 where
  pub id : Text
  pub manifest_id : Text
  pub correlation : ExecutionCorrelation
  pub action_intent_id : Text
  pub acceptance_outcome_id : Text
  pub verification_result_id : Text
  pub evidence_ids : List Text
  pub semantic_effect_ids : List Text
  pub from : Text

pub data JournalEntryKind : Type 0 where
  action_intent_recorded effect_plan_recorded manifest_created execution_receipt_recorded :
      JournalEntryKind
  effect_observed effect_reconciled evidence_attached verification_recorded : JournalEntryKind
  compensation_recorded outcome_rejected outcome_accepted semantic_committed : JournalEntryKind

pub record JournalEntry : Type 0 where
  pub id : Text
  pub kind : JournalEntryKind
  pub sequence : ℕ
  pub manifest_id : Text
  pub record_id : Text
  pub correlation : ExecutionCorrelation
  pub from : Text

-- `ExecutionAggregate`, whose fields are also those of a snapshot.
pub record ExecutionAggregate : Type 0 where
  pub manifest : ExecutionManifest
  pub receipt : Option ExecutionReceipt
  pub observed_effects : List ObservedEffect
  pub reconciliations : List EffectReconciliation
  pub evidence : List ExecutionEvidenceReference
  pub verifications : List VerificationResult
  pub compensations : List CompensatingAction
  pub outcomes : List AcceptanceOutcome
  pub semantic_commits : List VerifiedSemanticCommit
  pub journal : List JournalEntry
