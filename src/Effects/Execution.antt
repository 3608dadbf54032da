-- ===== src/Effects/Execution.antt =====
-- packages/effects/src/index.ts: `GovernedExecutionEngine` but for `decide`. The methods are
-- programs, since some change an aggregate before they may throw.
pub mod Recording
pub mod Decision
pub mod Sufficient
pub mod Accepting
pub mod Commits
pub mod Orderly
pub mod Recorded
pub mod Histories
use woyengi.Base.{
  ℕ, suc, Option, none, some, List, [], ◌∷◌, ◌++◌, Text, text, Bool, true, false, not, ◌||◌, ◌&&◌,
  Result, ok, raise, ErrorClass, plain_error, type_error, throw_if, map_result, same, is_some, ltb,
  length, any, find, Host, required_text, prefixed, namespaced, normalize_instant, requires_offset,
}
use woyengi.Base.Dict.{Dict, get, set, has}
use woyengi.Base.Number.{Number, number_lt, number_zero, integer}
use woyengi.Base.Programs.{
  Program, continue, attempt, finish, refuse_if, current, change, ◌>>=◌, ◌>>◌,
}
use woyengi.Base.Uris.{encode_uri_component}
use woyengi.Effects.Records.{
  ExecutionCorrelation, ActionIntent, EffectClass, runtime, semantic, external, RawEffect,
  runtime_lease, change_set, external_key, ExpectedEffect, ControlDecision, Decisions,
  DecisionStatus, allowed, denied, authority, policy, budget, risk, VerificationContract,
  ManifestStatus, authorized, blocked, ExecutionManifest, ReceiptStatus, ExecutionReceipt,
  ObservedEffect, ReconciliationStatus, uncertain, confirmed, diverged, ReconciliationStrategy,
  EffectReconciliation, ExecutionEvidenceReference, VerificationResult, VerificationStatus,
  CompensatingAction, JournalEntry, JournalEntryKind, action_intent_recorded, effect_plan_recorded,
  manifest_created, execution_receipt_recorded, effect_observed, effect_reconciled,
  evidence_attached, verification_recorded, compensation_recorded, ExecutionAggregate,
}
use woyengi.Effects.Engines.{Engine, find_aggregate}
use woyengi.Effects.Manifests.{
  max_safe, normalize_correlation, normalize_effects, normalize_decision,
  normalize_verification_contract, unique_sorted,
}

-- What a manifest is made of; a decision may be missing.
pub record ManifestInput : Type 0 where
  pub id : Text
  pub intent_id : Text
  pub correlation : ExecutionCorrelation
  pub principal_id : Text
  pub objective : Text
  pub plan_id : Text
  pub effects : List RawEffect
  pub authority_decision : Option ControlDecision
  pub policy_decision : Option ControlDecision
  pub budget_decision : Option ControlDecision
  pub risk_decision : Option ControlDecision
  pub contract : VerificationContract
  pub recorded_at : Text

abbrev pub class_of : ExpectedEffect → EffectClass
class_of e = elim e.detail [
  | runtime_lease _ ↦ runtime
  | change_set _ ↦ semantic
  | external_key _ ↦ external
]

abbrev pub same_class : EffectClass → EffectClass → Bool
same_class runtime runtime = true
same_class semantic semantic = true
same_class external external = true
same_class _ _ = false

abbrev pub is_authorized : ManifestStatus → Bool
is_authorized authorized = true
is_authorized blocked = false

abbrev pub is_allowed : DecisionStatus → Bool
is_allowed allowed = true
is_allowed denied = false

abbrev pub is_uncertain : ReconciliationStatus → Bool
is_uncertain uncertain = true
is_uncertain _ = false

abbrev pub manifest_status : Decisions → ManifestStatus
manifest_status d =
    elim (is_allowed d.authority_decision.status
      && (is_allowed d.policy_decision.status
          && (is_allowed d.budget_decision.status && is_allowed d.risk_decision.status))) [
            | true ↦ authorized
            | false ↦ blocked
          ]

required_decision : Text → Option ControlDecision → Result ControlDecision
required_decision key none = raise plain_error (key ++ text " decision is required")
required_decision key (some d) = ok d

-- `assertUnique`, on the ids of the values.
abbrev pub assert_unique {ℓ κ} :
    {S : Type ℓ} {V : Type κ} → (V → Text) → List V → Text → Text → Program S (Unit {0})
assert_unique id_of values id name =
    refuse_if (any (λ v. same (id_of v) id) values) plain_error
      (name ++ text " already exists: " ++ id)

unfoldable pub expected_effect : ExecutionAggregate → Text → Result ExpectedEffect
expected_effect a id = elim (prefixed (text "expected effect id") id (text "expected-effect:")) [
  | raise c m ↦ raise c m
  | ok normalized ↦
      elim (find (λ (e : ExpectedEffect). same e.id normalized) a.manifest.effect_plan.effects) [
        | none ↦ raise plain_error (text "expected effect does not exist: " ++ normalized)
        | some e ↦ ok e
      ]
]

-- A method's body on the aggregate that was found.
abbrev pub run_on :
    {A : Type 0}
    → Result (Text × ExecutionAggregate)
    → Program ExecutionAggregate A
    → Program Engine A
run_on (raise c m) body engine = (engine, raise c m)
run_on (ok (id, a)) body engine = let p = body a in (set id p.0 engine, p.1)

module _ ⦃h : Host⦄ where
  -- `#append`
  unfoldable pub append : JournalEntryKind → Text → Text → Program ExecutionAggregate (Unit {0})
  append kind record_id recorded_at = do
    a ← current
    let sequence = suc (length a.journal)
    encoded ← attempt (encode_uri_component a.manifest.id)
    from ← attempt (normalize_instant requires_offset recorded_at)
    change (λ b. record b {
      journal =
          b.journal
          ++ record {
            id =
                text "execution-journal-entry:"
                ++ encoded
                ++ text ":"
                ++ h.number_to_string (integer sequence);
            kind = kind;
            sequence = sequence;
            manifest_id = b.manifest.id;
            record_id = record_id;
            correlation = b.manifest.correlation;
            from = from;
          }
            ∷ [];
    })

  unfoldable pub on_aggregate :
      {A : Type 0} → Text → Program ExecutionAggregate A → Program Engine A
  on_aggregate manifest_id body engine = run_on (find_aggregate engine manifest_id) body engine

  unfoldable pub build_manifest : ManifestInput → Program Engine ExecutionManifest
  unfolding required_decision
  build_manifest input = do
    a ← attempt (required_decision (text "authority") input.authority_decision)
    p ← attempt (required_decision (text "policy") input.policy_decision)
    b ← attempt (required_decision (text "budget") input.budget_decision)
    r ← attempt (required_decision (text "risk") input.risk_decision)
    correlation ← attempt (normalize_correlation input.correlation)
    intent_id ← attempt (prefixed (text "action intent id") input.intent_id (text "action-intent:"))
    principal_id ←
        attempt (prefixed (text "action principal id") input.principal_id (text "principal:"))
    objective ← attempt (required_text (text "action objective") input.objective)
    effects ← attempt (normalize_effects [] input.effects)
    plan_id ← attempt (prefixed (text "effect plan id") input.plan_id (text "effect-plan:"))
    authority_decision ← attempt (normalize_decision a authority)
    policy_decision ← attempt (normalize_decision p policy)
    budget_decision ← attempt (normalize_decision b budget)
    risk_decision ← attempt (normalize_decision r risk)
    contract ← attempt (normalize_verification_contract input.contract)
    recorded_at ← attempt (normalize_instant requires_offset input.recorded_at)
    id ← attempt (prefixed (text "execution manifest id") input.id (text "execution-manifest:"))
    let decisions : Decisions = record {
      authority_decision = authority_decision;
      policy_decision = policy_decision;
      budget_decision = budget_decision;
      risk_decision = risk_decision;
    }
    finish (record {
      id = id;
      correlation = correlation;
      action_intent = record {
        id = intent_id;
        correlation = correlation;
        principal_id = principal_id;
        objective = objective;
      };
      effect_plan = record {
        id = plan_id;
        action_intent_id = intent_id;
        correlation = correlation;
        effects = effects;
      };
      decisions = decisions;
      verification_contract = contract;
      status = manifest_status decisions;
      from = recorded_at;
    })

  abbrev pub new_aggregate : ExecutionManifest → ExecutionAggregate
  new_aggregate manifest = record {
    manifest = manifest;
    receipt = none;
    observed_effects = [];
    reconciliations = [];
    evidence = [];
    verifications = [];
    compensations = [];
    outcomes = [];
    semantic_commits = [];
    journal = [];
  }

  unfoldable pub opening_entries : ExecutionManifest → Program ExecutionAggregate (Unit {0})
  opening_entries manifest = do
    append action_intent_recorded manifest.action_intent.id manifest.from
    append effect_plan_recorded manifest.effect_plan.id manifest.from
    append manifest_created manifest.id manifest.from

  -- The aggregate is there before its first entries are written.
  unfoldable pub store_manifest : ExecutionManifest → Program Engine (Unit {0})
  store_manifest manifest engine =
      let (a, r) = opening_entries manifest (new_aggregate manifest) in
      (set manifest.id a engine, r)

  unfoldable pub create_manifest : ManifestInput → Program Engine ExecutionManifest
  unfolding build_manifest store_manifest
  create_manifest input = do
    manifest ← build_manifest input
    engine ← current
    refuse_if (has manifest.id engine) plain_error
        (text "execution manifest already exists: " ++ manifest.id)
    store_manifest manifest
    finish manifest
