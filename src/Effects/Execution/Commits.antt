-- ===== src/Effects/Execution/Commits.antt =====
-- packages/effects/src/index.ts: `decide` makes a semantic commit exactly when it may.
use woyengi.Base.{
  Option, none, some, Text, Bool, true, false, ◌≡◌, refl, ap, sym, subst, Result, ok, raise, ◌↔◌,
  Host, is_some, ◌∙◌, Option-cases, inl, inr, Result-cases, ErrorClass,
}
use woyengi.Base.Programs.{
  Program, Ensures, ensured, continue-Ensures, attempt-Ensures, current-Ensures, finish-Ensures,
}
use woyengi.Effects.Records.{ExecutionAggregate, VerificationResult, AcceptanceOutcome}
use woyengi.Effects.Execution.{on_aggregate, run_on}
use woyengi.Effects.Engines.{Engine, find_aggregate, execution, find_aggregate-execution}
use woyengi.Effects.Execution.Decision.{
  decide, DecisionInput, AcceptanceResult, acceptable, commit, conclude, judge,
}
use woyengi.Effects.Execution.Accepting.{
  IsAcceptable, acceptable-IsAcceptable, acceptable_of_IsAcceptable,
}

true-false : {B : Type 0} → true ≡ false → B
true-false h = absurd (cc)

raise-ok : {A : Type 0} {c : ErrorClass} {t : Text} {r : A} {B : Type 0} → raise c t ≡ ok r → B
raise-ok h = absurd (cc)

with_state : {S A : Type 0} (p : S × Result A) (r : Result A) → p.1 ≡ r → p ≡ (p.0, r)
with_state p r h = ap (λ x. (p.0, x)) h

module _ ⦃h : Host⦄ where
  -- Whether the result has a commit.
  abbrev Commits : Bool → ExecutionAggregate → AcceptanceResult → Type 0
  Commits b a r = is_some r.semantic_commit ≡ b

  conclude-Commits :
      (input : DecisionInput) (o : AcceptanceOutcome) (v : Option VerificationResult) (at : Text)
      (a : ExecutionAggregate)
      → Ensures (Commits (is_some v)) (conclude input o v at a)
  unfolding conclude commit
  conclude-Commits input o none at a = continue-Ensures _ _ _ (λ s x. finish-Ensures _ s _ refl)
  conclude-Commits input o (some v) at a = continue-Ensures _ _ _ (λ s _. current-Ensures _ s _ (
      attempt-Ensures _ s _ _ (λ id _. attempt-Ensures _ s _ _ (λ ids _.
        attempt-Ensures _ s _ _ (λ _ _.
          continue-Ensures _ _ _
            (λ s0 _. continue-Ensures _ _ _ (λ s1 _. finish-Ensures _ s1 _ refl)))))))

  judge-Commits :
      (input : DecisionInput) (a : ExecutionAggregate)
      → Ensures (Commits (is_some (acceptable a))) (judge input a)
  unfolding judge
  judge-Commits input a = current-Ensures _ a _ (
      attempt-Ensures _ a _ _ (λ _ _. attempt-Ensures _ a _ _ (λ t _.
        attempt-Ensures _ a _ _ (λ _ _. attempt-Ensures _ a _ _ (λ _ _.
          attempt-Ensures _ a _ _ (λ _ _.
            continue-Ensures _ _ _ (λ s _. conclude-Commits input _ (acceptable a) t s)))))))

  judge-IsAcceptable :
      (input : DecisionInput) (a b : ExecutionAggregate) (r : AcceptanceResult)
      → judge input a ≡ (b, ok r)
      → is_some r.semantic_commit ≡ true ↔ ((v : VerificationResult) × IsAcceptable a v)
  judge-IsAcceptable input a b r k =
      let e =
        ensured (Commits (is_some (acceptable a))) (judge input a) b r (judge-Commits input a) k in
      (
        λ c. elim (Option-cases (acceptable a)) [
          | inl n ↦ true-false (sym c ∙ e ∙ ap is_some n)
          | inr (v, s) ↦ (v, acceptable-IsAcceptable a v s)
        ],
        λ v. let (w, s) = acceptable_of_IsAcceptable a v.0 v.1 in e ∙ ap is_some s,
      )

  -- A method that returns found its aggregate.
  on_aggregate-ok :
      {A : Type 0} (m : Text) (body : Program ExecutionAggregate A) (engine engine' : Engine)
      (r : A)
      → on_aggregate m body engine ≡ (engine', ok r)
      → (a : ExecutionAggregate) × ((b : ExecutionAggregate) × ((execution engine m ≡ ok (some a))
            × (body a ≡ (b, ok r))))
  unfolding on_aggregate
  on_aggregate-ok m body engine engine' r k = elim (Result-cases (find_aggregate engine m)) [
    | inl ((id, a), e) ↦ (
      a,
      (
        (body a).0,
        (
          find_aggregate-execution engine m id a e,
          with_state (body a) (ok r)
              (ap (λ p. p.1) (subst (λ f. run_on f body engine ≡ (engine', ok r)) e k)),
        ),
      ),
    )
    | inr (c, t, e) ↦
        (raise-ok (ap (λ p. p.1) (subst (λ f. run_on f body engine ≡ (engine', ok r)) e k)))
  ]

  -- A decision that returns found its execution, and has made a semantic commit exactly when some
  -- verification makes the execution, as it was before the decision, acceptable.
  pub decide-IsAcceptable :
      (input : DecisionInput) (engine engine' : Engine) (r : AcceptanceResult)
      → decide input engine ≡ (engine', ok r)
      → (a : ExecutionAggregate) × (execution engine input.manifest_id ≡ ok (some a))
        × (is_some r.semantic_commit ≡ true ↔ ((v : VerificationResult) × IsAcceptable a v))
  unfolding decide
  decide-IsAcceptable input engine engine' r k =
      let (a, (b, (x, j))) = on_aggregate-ok input.manifest_id (judge input) engine engine' r k in
      (a, x, judge-IsAcceptable input a b r j)
