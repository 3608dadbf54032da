-- ===== src/Effects/Tests.antt =====
-- A run of the governed execution engine.
use woyengi.Base.{
  ℕ, Bool, length, List, map, Option, none, some, [], ◌∷◌, Text, text, true, false, Result, ok,
  raise, ◌≡◌, ap, ◌↔◌, refl, normalize_instant, prefixed, namespaced, required_text, text_discrete,
  compare_units, starts_with, includes, trim, map_result, keep, any, find, all, is_some,
}
use woyengi.Base.Dict.{get, set, member, add, add_all}
use woyengi.Base.Number.{pos, integer}
use woyengi.Base.Programs.{Program, continue}
use woyengi.Base.Sort.{sort}
use woyengi.Base.Uris.{encode_uri_component}
use woyengi.Base.Doubles.{add_number}
use woyengi.Effects.Records.{
  ExecutionCorrelation, external, RawEffect, authority, policy, budget, risk, allowed,
  ControlDecisionKind, ControlDecision, VerificationContract, succeeded, confirmed,
  human_confirmation, VerificationResult, verified, refused, ExecutionAggregate, JournalEntry,
}
use woyengi.Effects.Manifests.{
  normalize_correlation, normalize_effects, normalize_decision, normalize_verification_contract,
  unique_sorted,
}
use woyengi.Effects.Engines.{Engine, find_aggregate, execution}
use woyengi.Effects.Execution.{
  expected_effect, ManifestInput, create_manifest, build_manifest, store_manifest, opening_entries,
  append, on_aggregate,
}
use woyengi.Effects.Execution.Recording.{
  record_receipt, observe_effect, reconcile, attach_evidence, record_verification,
}
use woyengi.Effects.Execution.Decision.{
  effect_reasons, select_verification, shortfall, DecisionInput, AcceptanceResult, decide, judge,
}
use woyengi.Effects.Execution.Accepting.{IsAcceptable}
use woyengi.Effects.Execution.Commits.{decide-IsAcceptable}
use woyengi.Effects.Execution.Histories.{started, after, creating, reachable-IsOrderly}
use woyengi.Effects.Execution.Orderly.{IsOrderly}
use woyengi.Samples.{plain_host, value_or}

abbrev correlation : ExecutionCorrelation
correlation = record {
  workspace_id = text "workspace:w";
  work_instance_id = text "work-instance:i";
  work_episode_id = text "work-episode:e";
  trace_id = text "trace:t";
}

abbrev mail : RawEffect
mail = record {
  id = text "expected-effect:m";
  effect_class = external;
  description = text "d";
  runtime_effect_lease_id = none;
  runtime_cleanup_only = false;
  change_set_id = none;
  idempotency_key = some (text "k");
  reconciliation_required = true;
  correction = some (text "COMPENSATION_OR_REPAIR");
}

abbrev allow : ControlDecisionKind → Option ControlDecision
allow kind =
    some (record { id = text "decision:d"; kind = kind; status = allowed; reason = text "r" })

abbrev contract : VerificationContract
contract = record {
  id = text "verification-contract:v";
  required_evidence_ids = text "evidence:e" ∷ [];
  independent_verifier_required = true;
  maximum_cost = pos 5;
  currency = text "EUR";
  maximum_attempts = 2;
  stop_condition = text "VERIFIED";
}

abbrev pub manifest_input : ManifestInput
manifest_input = record {
  id = text "execution-manifest:x";
  intent_id = text "action-intent:a";
  correlation = correlation;
  principal_id = text "principal:p";
  objective = text "o";
  plan_id = text "effect-plan:p";
  effects = mail ∷ [];
  authority_decision = allow authority;
  policy_decision = allow policy;
  budget_decision = allow budget;
  risk_decision = allow risk;
  contract = contract;
  recorded_at = text "1Z";
}

abbrev pub opened : Engine
opened = (create_manifest manifest_input []).0

-- The journal's entries, by number, of the execution that was opened.
abbrev entries : Option ExecutionAggregate → List ℕ
entries none = []
entries (some a) = map (λ (e : JournalEntry). e.sequence) a.journal

opening_journal : entries (get (text "execution-manifest:x") opened) ≡ 1 ∷ 2 ∷ 3 ∷ []
unfolding create_manifest build_manifest store_manifest opening_entries append continue execution
    get set normalize_correlation normalize_effects normalize_decision
    normalize_verification_contract unique_sorted prefixed namespaced required_text
    normalize_instant text text_discrete compare_units starts_with includes trim map_result keep any
    find all member add add_all sort encode_uri_component integer
opening_journal = refl

abbrev here : Text
here = text "execution-manifest:x"

abbrev run : {A : Type 0} → Program Engine A → Engine → Engine
run p e = (p e).0

-- The execution of the mail, up to its verification.
abbrev ready : Engine
ready =
    run
      (record_verification (record {
        id = text "verification-result:r";
        manifest_id = here;
        correlation = correlation;
        verifier_id = text "verifier:b";
        status = verified;
        independent_from_provider = true;
        evidence_ids = text "evidence:e" ∷ [];
        attempt = 1;
        cost_amount = pos 3;
        cost_currency = text "EUR";
        stop_condition_met = true;
        from = text "6Z";
      }))
      (run
        (attach_evidence (record {
          id = text "evidence:e";
          manifest_id = here;
          correlation = correlation;
          source = text "s";
          from = text "5Z";
        }))
        (run
          (reconcile (record {
            id = text "reconciliation:c";
            manifest_id = here;
            expected_effect_id = text "expected-effect:m";
            observed_effect_id = text "observed-effect:m";
            correlation = correlation;
            status = confirmed;
            strategy = human_confirmation;
            reason = text "r";
            review_required = false;
            from = text "4Z";
          }))
          (run
            (observe_effect (record {
              id = text "observed-effect:m";
              manifest_id = here;
              expected_effect_id = text "expected-effect:m";
              effect_class = external;
              correlation = correlation;
              provider_id = text "provider:a";
              observation = text "o";
              from = text "3Z";
            }))
            (run
              (record_receipt (record {
                id = text "execution-receipt:r";
                manifest_id = here;
                correlation = correlation;
                provider_id = text "provider:a";
                transport_status = some 200;
                status = succeeded;
                from = text "2Z";
              }))
              opened))))

abbrev decision_input : DecisionInput
decision_input = record {
  id = text "acceptance-decision:d";
  outcome_id = text "accepted-outcome:o";
  semantic_commit_id = text "semantic-commit:c";
  manifest_id = here;
  accepted_by_principal_id = text "principal:p";
  recorded_at = text "7Z";
}

abbrev commits_of : Result AcceptanceResult → Bool
commits_of (ok r) = is_some r.semantic_commit
commits_of (raise c m) = false

accepts : commits_of (decide decision_input ready).1 ≡ true
unfolding decide judge record_receipt observe_effect reconcile attach_evidence record_verification
    on_aggregate find_aggregate expected_effect create_manifest build_manifest store_manifest
    opening_entries append continue execution get set normalize_correlation normalize_effects
    normalize_decision normalize_verification_contract unique_sorted prefixed namespaced
    required_text normalize_instant text text_discrete compare_units starts_with includes trim
    map_result keep any find all member add add_all sort encode_uri_component integer add_number
    effect_reasons select_verification shortfall
accepts = refl

-- A commit with an id of another kind is refused after the outcome is recorded as accepted.
abbrev outcome_count : Option ExecutionAggregate → ℕ
outcome_count none = 0
outcome_count (some a) = length a.outcomes

accepts_without_commit :
    outcome_count
      (get here (decide (record decision_input { semantic_commit_id = text "x" }) ready).0)
    ≡ 1
unfolding decide judge record_receipt observe_effect reconcile attach_evidence record_verification
    on_aggregate find_aggregate expected_effect create_manifest build_manifest store_manifest
    opening_entries append continue execution get set normalize_correlation normalize_effects
    normalize_decision normalize_verification_contract unique_sorted prefixed namespaced
    required_text normalize_instant text text_discrete compare_units starts_with includes trim
    map_result keep any find all member add add_all sort encode_uri_component integer add_number
    effect_reasons select_verification shortfall
accepts_without_commit = refl

abbrev blank_result : AcceptanceResult
blank_result = record {
  outcome = record {
    id = here;
    acceptance_decision_id = here;
    manifest_id = here;
    correlation = correlation;
    status = refused;
    reasons = [];
    review_required = false;
    accepted_by_principal_id = here;
    verification_result_id = none;
    from = here;
  };
  semantic_commit = none;
}

abbrev decided : AcceptanceResult
decided = value_or blank_result (decide decision_input ready).1

returned :
    (p : Engine × Result AcceptanceResult)
    → commits_of p.1 ≡ true
    → p ≡ (p.0, ok (value_or blank_result p.1))
returned (e, ok r) h = refl
returned (e, raise c m) h = absurd (cc)

decide-IsAcceptable_example :
    (a : ExecutionAggregate) × (execution ready here ≡ ok (some a))
    × (is_some decided.semantic_commit ≡ true ↔ ((v : VerificationResult) × IsAcceptable a v))
decide-IsAcceptable_example =
    decide-IsAcceptable decision_input ready (decide decision_input ready).0 decided
      (returned (decide decision_input ready) accepts)

in_engine :
    (o : Option ExecutionAggregate)
    → entries o ≡ 1 ∷ 2 ∷ 3 ∷ []
    → (a : ExecutionAggregate) × (o ≡ some a)
in_engine none h = absurd (cc)
in_engine (some a) h = (a, refl)

abbrev opened_execution : ExecutionAggregate
opened_execution = (in_engine (get here opened) opening_journal).0

opened_execution_found : execution opened here ≡ ok (some opened_execution)
unfolding execution prefixed required_text text starts_with trim text_discrete
opened_execution_found = ap ok (in_engine (get here opened) opening_journal).1

reachable-IsOrderly_example : IsOrderly opened_execution
reachable-IsOrderly_example =
    reachable-IsOrderly opened here opened_execution (after started (creating [] manifest_input))
      opened_execution_found
