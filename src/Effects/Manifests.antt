-- ===== src/Effects/Manifests.antt =====
-- packages/effects/src/index.ts: the validation of a manifest's parts.
use woyengi.Base.{
  ℕ, Option, none, some, List, [], ◌∷◌, ◌++◌, Text, text, Bool, true, false, not, ◌||◌, Result, ok,
  raise, plain_error, type_error, ◌>>=◌, ◌>>◌, throw_if, map_result, same, is_some, ltb,
  required_text, prefixed, compare_units, or_default,
}
use woyengi.Base.Dict.{member, add, add_all}
use woyengi.Base.Number.{number_lt, number_zero}
use woyengi.Base.Sort.{sort}
use woyengi.Effects.Records.{
  ExecutionCorrelation, RawEffect, EffectClass, runtime, semantic, external, EffectDetail,
  runtime_lease, change_set, external_key, ExpectedEffect, ControlDecision, ControlDecisionKind,
  authority, policy, budget, risk, VerificationContract,
}

abbrev pub max_safe : ℕ
max_safe = 9007199254740991

-- `new Set` of the trimmed values, sorted: repetitions go.
unfoldable pub unique_sorted : Text → List Text → Result (List Text)
unique_sorted name values = do
  normalized ← map_result (required_text name) values
  ok (sort compare_units (add_all [] normalized))

unfoldable pub normalize_correlation : ExecutionCorrelation → Result ExecutionCorrelation
normalize_correlation value = do
  workspace_id ← prefixed (text "workspace id") value.workspace_id (text "workspace:")
  work_instance_id ←
      prefixed (text "work instance id") value.work_instance_id (text "work-instance:")
  work_episode_id ← prefixed (text "work episode id") value.work_episode_id (text "work-episode:")
  trace_id ← prefixed (text "trace id") value.trace_id (text "trace:")
  ok (record {
    workspace_id = workspace_id;
    work_instance_id = work_instance_id;
    work_episode_id = work_episode_id;
    trace_id = trace_id;
  })

-- A field that is not there makes `value.trim()` a TypeError.
abbrev pub present : Option Text → Result Text
present none = raise type_error (text "Cannot read properties of undefined (reading 'trim')")
present (some value) = ok value

-- The branch of an effect's class.
pub effect_detail : RawEffect → EffectClass → Result EffectDetail
effect_detail raw runtime = do
  throw_if (is_some raw.change_set_id || is_some raw.idempotency_key || is_some raw.correction)
      plain_error (text "runtime effect cannot declare semantic or external effect fields")
  throw_if (not raw.runtime_cleanup_only) plain_error (text "runtime disposer is cleanup only")
  given ← present raw.runtime_effect_lease_id
  lease ← prefixed (text "runtime effect lease id") given (text "runtime-effect-lease:")
  ok (runtime_lease lease)
effect_detail raw semantic = do
  throw_if
      (is_some raw.runtime_effect_lease_id || is_some raw.idempotency_key || is_some raw.correction)
      plain_error (text "semantic effect cannot declare runtime or external effect fields")
  given ← present raw.change_set_id
  changes ← prefixed (text "change set id") given (text "change-set:")
  ok (change_set changes)
effect_detail raw external = do
  throw_if (is_some raw.runtime_effect_lease_id || is_some raw.change_set_id) plain_error
      (text "external effect cannot declare runtime or semantic effect fields")
  throw_if
      (not raw.reconciliation_required
        || not (same (or_default raw.correction []) (text "COMPENSATION_OR_REPAIR")))
      plain_error
      (text "external effect requires reconciliation and compensation-or-repair semantics")
  given ← present raw.idempotency_key
  key ← required_text (text "external effect idempotency key") given
  ok (external_key key)

-- `normalizeEffects`, with the ids that came before.
unfoldable pub normalize_effects : List Text → List RawEffect → Result (List ExpectedEffect)
unfolding effect_detail
normalize_effects ids [] = ok []
normalize_effects ids (raw ∷ rest) = do
  id ← prefixed (text "expected effect id") raw.id (text "expected-effect:")
  throw_if (member id ids) plain_error (text "duplicate expected effect: " ++ id)
  description ← required_text (text "expected effect description") raw.description
  detail ← effect_detail raw raw.effect_class
  others ← normalize_effects (add id ids) rest
  ok (record { id = id; description = description; detail = detail } ∷ others)

abbrev kind_name : ControlDecisionKind → Text
kind_name authority = text "authority"
kind_name policy = text "policy"
kind_name budget = text "budget"
kind_name risk = text "risk"

abbrev same_kind : ControlDecisionKind → ControlDecisionKind → Bool
same_kind authority authority = true
same_kind policy policy = true
same_kind budget budget = true
same_kind risk risk = true
same_kind _ _ = false

unfoldable pub normalize_decision : ControlDecision → ControlDecisionKind → Result ControlDecision
normalize_decision decision kind = do
  throw_if (not (same_kind decision.kind kind)) plain_error
      (kind_name kind ++ text " decision kind mismatch")
  id ← prefixed (text "control decision id") decision.id (text "decision:")
  reason ← required_text (text "control decision reason") decision.reason
  ok (record { id = id; kind = kind; status = decision.status; reason = reason })

unfoldable pub normalize_verification_contract : VerificationContract → Result VerificationContract
normalize_verification_contract input = do
  throw_if (number_lt input.maximum_cost number_zero) type_error
      (text "verification maximum cost must be non-negative")
  throw_if (ltb max_safe input.maximum_attempts || ltb input.maximum_attempts 1) type_error
      (text "verification maximum attempts must be positive")
  throw_if (not (same input.stop_condition (text "VERIFIED"))) type_error
      (text "unsupported verification stop condition")
  id ← prefixed (text "verification contract id") input.id (text "verification-contract:")
  required ←
      map_result (λ e. prefixed (text "required evidence id") e (text "evidence:"))
        input.required_evidence_ids
  required_evidence_ids ← unique_sorted (text "required evidence ids") required
  currency ← required_text (text "verification budget currency") input.currency
  ok (record {
    id = id;
    required_evidence_ids = required_evidence_ids;
    independent_verifier_required = input.independent_verifier_required;
    maximum_cost = input.maximum_cost;
    currency = currency;
    maximum_attempts = input.maximum_attempts;
    stop_condition = input.stop_condition;
  })
