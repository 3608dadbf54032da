-- ===== src/Effects/Execution/Recording.antt =====
-- packages/effects/src/index.ts: the methods that record what an execution did. An input has the
-- fields of its record; the ones that the method fills in are not read.
use woyengi.Base.{
  ℕ, Option, none, some, [], ◌∷◌, ◌++◌, Text, text, Bool, true, false, not, ◌||◌, ◌&&◌, Result, ok,
  raise, plain_error, type_error, map_result, same, is_some, ltb, find, Host, required_text,
  prefixed, namespaced, normalize_instant, requires_offset,
}
use woyengi.Base.Number.{number_lt, number_zero}
use woyengi.Base.Programs.{Program, attempt, finish, refuse_if, current, change, ◌>>=◌, ◌>>◌}
use woyengi.Effects.Records.{
  external, ExecutionReceipt, ObservedEffect, EffectReconciliation, ExecutionEvidenceReference,
  VerificationResult, CompensatingAction, execution_receipt_recorded, effect_observed,
  effect_reconciled, evidence_attached, verification_recorded, compensation_recorded,
  ExecutionAggregate,
}
use woyengi.Effects.Manifests.{max_safe, unique_sorted}
use woyengi.Effects.Engines.{Engine}
use woyengi.Effects.Execution.{
  class_of, same_class, is_authorized, is_uncertain, assert_unique, expected_effect, append,
  on_aggregate,
}

-- `transportStatus` out of the range of HTTP.
abbrev pub bad_transport : Option ℕ → Bool
bad_transport none = false
bad_transport (some s) = ltb s 100 || ltb 599 s

-- `receipt !== undefined && receipt.providerId !== verifierId`
abbrev pub other_provider : Option ExecutionReceipt → Text → Bool
other_provider none verifier = false
other_provider (some r) verifier = not (same r.provider_id verifier)

module _ ⦃h : Host⦄ where
  unfoldable pub receive : ExecutionReceipt → Program ExecutionAggregate ExecutionReceipt
  receive input = do
    a ← current
    refuse_if (not (is_authorized a.manifest.status)) plain_error
        (text "blocked manifest cannot execute")
    refuse_if (is_some a.receipt) plain_error
        (text "execution receipt already exists: " ++ a.manifest.id)
    refuse_if (bad_transport input.transport_status) type_error
        (text "transport status must be an HTTP status integer")
    id ← attempt (prefixed (text "execution receipt id") input.id (text "execution-receipt:"))
    provider_id ← attempt (namespaced (text "execution provider id") input.provider_id)
    from ← attempt (normalize_instant requires_offset input.from)
    let receipt : ExecutionReceipt = record input {
      id = id;
      manifest_id = a.manifest.id;
      correlation = a.manifest.correlation;
      provider_id = provider_id;
      from = from;
    }
    change (λ b. record b { receipt = some receipt })
    append execution_receipt_recorded id from
    finish receipt

  unfoldable pub record_receipt : ExecutionReceipt → Program Engine ExecutionReceipt
  unfolding receive
  record_receipt input = on_aggregate input.manifest_id (receive input)

  unfoldable pub observe : ObservedEffect → Program ExecutionAggregate ObservedEffect
  observe input = do
    a ← current
    expected ← attempt (expected_effect a input.expected_effect_id)
    refuse_if (not (same_class (class_of expected) input.effect_class)) plain_error
        (text "observed effect class does not match expected effect")
    id ← attempt (prefixed (text "observed effect id") input.id (text "observed-effect:"))
    provider_id ← attempt (namespaced (text "effect provider id") input.provider_id)
    observation ← attempt (required_text (text "effect observation") input.observation)
    from ← attempt (normalize_instant requires_offset input.from)
    let observed : ObservedEffect = record {
      id = id;
      manifest_id = a.manifest.id;
      expected_effect_id = expected.id;
      effect_class = class_of expected;
      correlation = a.manifest.correlation;
      provider_id = provider_id;
      observation = observation;
      from = from;
    }
    assert_unique (λ (o : ObservedEffect). o.id) a.observed_effects id (text "observed effect")
    change (λ b. record b { observed_effects = b.observed_effects ++ observed ∷ [] })
    append effect_observed id from
    finish observed

  unfoldable pub observe_effect : ObservedEffect → Program Engine ObservedEffect
  unfolding observe
  observe_effect input = on_aggregate input.manifest_id (observe input)

  -- The observation that a reconciliation names, of the expected effect.
  matching_observation : ExecutionAggregate → Text → Text → Result ObservedEffect
  matching_observation a observed_id expected_id =
      elim (find (λ (o : ObservedEffect). same o.id observed_id) a.observed_effects) [
        | none ↦
            raise plain_error (text "reconciliation observation does not match expected effect")
        | some o ↦ elim (same o.expected_effect_id expected_id) [
          | true ↦ ok o
          | false ↦
              raise plain_error (text "reconciliation observation does not match expected effect")
        ]
      ]

  unfoldable pub settle : EffectReconciliation → Program ExecutionAggregate EffectReconciliation
  unfolding matching_observation
  settle input = do
    a ← current
    expected ← attempt (expected_effect a input.expected_effect_id)
    observed ← attempt (matching_observation a input.observed_effect_id expected.id)
    id ← attempt (prefixed (text "reconciliation id") input.id (text "reconciliation:"))
    reason ← attempt (required_text (text "reconciliation reason") input.reason)
    from ← attempt (normalize_instant requires_offset input.from)
    let reconciliation : EffectReconciliation = record {
      id = id;
      manifest_id = a.manifest.id;
      expected_effect_id = expected.id;
      observed_effect_id = observed.id;
      correlation = a.manifest.correlation;
      status = input.status;
      strategy = input.strategy;
      reason = reason;
      review_required = is_uncertain input.status && same_class (class_of expected) external;
      from = from;
    }
    assert_unique (λ (r : EffectReconciliation). r.id) a.reconciliations id (text "reconciliation")
    change (λ b. record b { reconciliations = b.reconciliations ++ reconciliation ∷ [] })
    append effect_reconciled id from
    finish reconciliation

  unfoldable pub reconcile : EffectReconciliation → Program Engine EffectReconciliation
  unfolding settle
  reconcile input = on_aggregate input.manifest_id (settle input)

  unfoldable pub attach :
      ExecutionEvidenceReference → Program ExecutionAggregate ExecutionEvidenceReference
  attach input = do
    a ← current
    id ← attempt (prefixed (text "evidence id") input.id (text "evidence:"))
    source ← attempt (required_text (text "evidence source") input.source)
    from ← attempt (normalize_instant requires_offset input.from)
    let evidence : ExecutionEvidenceReference = record {
      id = id;
      manifest_id = a.manifest.id;
      correlation = a.manifest.correlation;
      source = source;
      from = from;
    }
    assert_unique (λ (e : ExecutionEvidenceReference). e.id) a.evidence id (text "evidence")
    change (λ b. record b { evidence = b.evidence ++ evidence ∷ [] })
    append evidence_attached id from
    finish evidence

  unfoldable pub attach_evidence :
      ExecutionEvidenceReference → Program Engine ExecutionEvidenceReference
  unfolding attach
  attach_evidence input = on_aggregate input.manifest_id (attach input)

  unfoldable pub verify : VerificationResult → Program ExecutionAggregate VerificationResult
  verify input = do
    a ← current
    refuse_if (ltb max_safe input.attempt || ltb input.attempt 1) type_error
        (text "verification attempt must be a positive integer")
    refuse_if (number_lt input.cost_amount number_zero) type_error
        (text "verification cost must be non-negative")
    id ← attempt (prefixed (text "verification result id") input.id (text "verification-result:"))
    verifier_id ← attempt (namespaced (text "verifier id") input.verifier_id)
    given ← attempt (
        map_result (λ e. prefixed (text "verification evidence id") e (text "evidence:"))
          input.evidence_ids)
    evidence_ids ← attempt (unique_sorted (text "verification evidence ids") given)
    currency ← attempt (required_text (text "verification cost currency") input.cost_currency)
    from ← attempt (normalize_instant requires_offset input.from)
    let verification : VerificationResult = record {
      id = id;
      manifest_id = a.manifest.id;
      correlation = a.manifest.correlation;
      verifier_id = verifier_id;
      status = input.status;
      independent_from_provider =
          input.independent_from_provider && other_provider a.receipt input.verifier_id;
      evidence_ids = evidence_ids;
      attempt = input.attempt;
      cost_amount = input.cost_amount;
      cost_currency = currency;
      stop_condition_met = input.stop_condition_met;
      from = from;
    }
    assert_unique (λ (v : VerificationResult). v.id) a.verifications id (text "verification result")
    change (λ b. record b { verifications = b.verifications ++ verification ∷ [] })
    append verification_recorded id from
    finish verification

  unfoldable pub record_verification : VerificationResult → Program Engine VerificationResult
  unfolding verify
  record_verification input = on_aggregate input.manifest_id (verify input)

  unfoldable pub compensate : CompensatingAction → Program ExecutionAggregate CompensatingAction
  compensate input = do
    a ← current
    expected ← attempt (expected_effect a input.expected_external_effect_id)
    refuse_if (not (same_class (class_of expected) external)) plain_error
        (text "compensation is only valid for an external effect")
    id ← attempt (prefixed (text "compensating action id") input.id (text "compensating-action:"))
    reason ← attempt (required_text (text "compensation reason") input.reason)
    from ← attempt (normalize_instant requires_offset input.from)
    let compensation : CompensatingAction = record {
      id = id;
      manifest_id = a.manifest.id;
      expected_external_effect_id = expected.id;
      correlation = a.manifest.correlation;
      reason = reason;
      from = from;
    }
    assert_unique (λ (c : CompensatingAction). c.id) a.compensations id (text "compensating action")
    change (λ b. record b { compensations = b.compensations ++ compensation ∷ [] })
    append compensation_recorded id from
    finish compensation

  unfoldable pub record_compensation : CompensatingAction → Program Engine CompensatingAction
  unfolding compensate
  record_compensation input = on_aggregate input.manifest_id (compensate input)
