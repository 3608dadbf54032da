-- ===== src/Effects/Execution/Histories.antt =====
-- packages/effects/src/index.ts: every engine that the methods can reach is orderly, whatever they
-- are given and whether they throw or not.
use woyengi.Base.{
  Option, none, some, List, [], ◌∷◌, ◌++◌, Text, ◌≡◌, refl, sym, ◌∙◌, arith, inl, inr, length, ◌≤◌,
  Result-cases, text_discrete, subst, ok, Host,
}
use woyengi.Base.Dict.{get, set, get-set_self, get-set_ne}
use woyengi.Base.Numbered.{append-IsNumbered}
use woyengi.Base.Programs.{
  Program, continue-keeps, continue-establishes, attempt-keeps, current-keeps, change-keeps,
}
use woyengi.Effects.Records.{
  JournalEntryKind, outcome_accepted, JournalEntry, ExecutionAggregate, ExecutionManifest,
  ExecutionReceipt, ObservedEffect, EffectReconciliation, ExecutionEvidenceReference,
  VerificationResult, VerifiedSemanticCommit, CompensatingAction, AcceptanceOutcome,
}
use woyengi.Effects.Engines.{Engine, find_aggregate, find_aggregate-get, execution, execution-get}
use woyengi.Effects.Execution.{
  append, on_aggregate, run_on, ManifestInput, create_manifest, opening_entries, store_manifest,
  new_aggregate, build_manifest,
}
use woyengi.Effects.Execution.Recording.{
  record_receipt, observe_effect, reconcile, attach_evidence, record_verification,
  record_compensation,
}
use woyengi.Effects.Execution.Decision.{DecisionInput, acceptable, commit, conclude, judge, decide}
use woyengi.Effects.Execution.Accepting.{acceptable-IsAcceptable}
use woyengi.Effects.Execution.Orderly.{HasSucceeded, IsOrderly, append-keeps, append-IsOrderly}
use woyengi.Effects.Execution.Recorded.{
  receive-IsOrderly, observe-IsOrderly, settle-IsOrderly, attach-IsOrderly, verify-IsOrderly,
  compensate-IsOrderly,
}

-- An execution that a commit may be added to.
record IsReady (a : ExecutionAggregate) : Type 0 where
  orderly : IsOrderly a
  uncommitted : a.semantic_commits ≡ []
  executed : HasSucceeded a.receipt

some-eq : {A : Type 0} {a b : A} → some a ≡ some b → a ≡ b
some-eq h = cc

one_more : {A : Type 0} {xs : List A} → xs ≡ [] → (x : A) → length (xs ++ x ∷ []) ≤ 1
one_more h x = rw h (omega arith)

commit_added :
    (a : ExecutionAggregate) (c : VerifiedSemanticCommit)
    → IsReady a
    → IsOrderly (record a { semantic_commits = a.semantic_commits ++ c ∷ [] })
commit_added a c i = record {
  single = one_more i.uncommitted c;
  numbered = i.orderly.numbered;
  governed = i.orderly.governed;
  backed = inr i.executed;
}

module _ ⦃h : Host⦄ where
  append-IsReady :
      (kind : JournalEntryKind) (id at : Text) (a : ExecutionAggregate)
      → IsReady a
      → IsReady (append kind id at a).0
  append-IsReady kind id at a i = append-keeps IsReady kind id at a i (λ e k. record {
    orderly = record {
      single = i.orderly.single;
      numbered =
          append-IsNumbered (λ (x : JournalEntry). x.sequence) 0 a.journal e i.orderly.numbered
            (omega (arith, k));
      governed = i.orderly.governed;
      backed = i.orderly.backed;
    };
    uncommitted = i.uncommitted;
    executed = i.executed;
  })

  commit-IsOrderly :
      (input : DecisionInput) (o : AcceptanceOutcome) (v : VerificationResult) (at : Text)
      (a : ExecutionAggregate)
      → IsReady a
      → IsOrderly (commit input o v at a).0
  unfolding commit
  commit-IsOrderly input o v at a i = current-keeps IsOrderly a _ (
      attempt-keeps IsOrderly a _ _ i.orderly (λ id _.
        attempt-keeps IsOrderly a _ _ i.orderly (λ ids _.
          attempt-keeps IsOrderly a _ _ i.orderly (λ _ _. change-keeps IsOrderly _ _ (
            continue-keeps IsOrderly _ _ (append-IsOrderly _ _ _ _ (commit_added a _ i))
              (λ _ _ j. j))))))

  conclude-IsOrderly :
      (input : DecisionInput) (o : AcceptanceOutcome) (v : Option VerificationResult) (at : Text)
      (a : ExecutionAggregate)
      → IsOrderly a
      → ((w : VerificationResult) → v ≡ some w → IsReady a)
      → IsOrderly (conclude input o v at a).0
  unfolding conclude
  conclude-IsOrderly input o none at a i k =
      continue-keeps IsOrderly _ _ (append-IsOrderly _ _ _ a i) (λ _ _ j. j)
  conclude-IsOrderly input o (some v) at a i k =
      continue-establishes IsOrderly IsReady (append outcome_accepted o.id at a) _
        (λ _ r. r.orderly) (append-IsReady outcome_accepted o.id at a (k v refl))
        (λ s _ r. commit-IsOrderly input o v at s r)

  judge-IsOrderly :
      (input : DecisionInput) (a : ExecutionAggregate) → IsOrderly a → IsOrderly (judge input a).0
  unfolding judge
  judge-IsOrderly input a i = current-keeps IsOrderly a _ (
      attempt-keeps IsOrderly a _ _ i (λ _ _. attempt-keeps IsOrderly a _ _ i (λ at _.
        attempt-keeps IsOrderly a _ _ i (λ _ _. attempt-keeps IsOrderly a _ _ i (λ _ _.
          attempt-keeps IsOrderly a _ _ i (λ _ _. change-keeps IsOrderly _ _ (
            conclude-IsOrderly input _ (acceptable a) at _ i (λ w e.
              let good = acceptable-IsAcceptable a w e in
              record {
                orderly = i;
                uncommitted = good.uncommitted;
                executed = good.executed;
              }))))))))

  -- An engine all of whose executions are orderly.
  abbrev pub AllOrderly : Engine → Type 0
  AllOrderly engine = (id : Text) (a : ExecutionAggregate) → get id engine ≡ some a → IsOrderly a

  set-AllOrderly :
      (id : Text) (a : ExecutionAggregate) (engine : Engine)
      → AllOrderly engine
      → IsOrderly a
      → AllOrderly (set id a engine)
  set-AllOrderly id a engine all i j b h = elim (text_discrete id j) [
    | yes e ↦
        let k =
          sym (get-set_self id a engine)
          ∙ subst (λ x. get x (set id a engine) ≡ some b) (sym e) h in
        subst IsOrderly (some-eq k) i
    | no n ↦ all j b (sym (get-set_ne id j a engine n) ∙ h)
  ]

  on_aggregate-AllOrderly :
      {A : Type 0} (m : Text) (body : Program ExecutionAggregate A) (engine : Engine)
      → ((a : ExecutionAggregate) → IsOrderly a → IsOrderly (body a).0)
      → AllOrderly engine
      → AllOrderly (on_aggregate m body engine).0
  unfolding on_aggregate
  on_aggregate-AllOrderly m body engine keeps all = elim (Result-cases (find_aggregate engine m)) [
    | inl ((id, a), e) ↦
        subst (λ r. AllOrderly (run_on r body engine).0) (sym e)
          (set-AllOrderly id (body a).0 engine all
            (keeps a (all id a (find_aggregate-get engine m id a e))))
    | inr (c, t, e) ↦ subst (λ r. AllOrderly (run_on r body engine).0) (sym e) all
  ]

  opening_entries-IsOrderly :
      (manifest : ExecutionManifest) (a : ExecutionAggregate)
      → IsOrderly a
      → IsOrderly (opening_entries manifest a).0
  unfolding opening_entries
  opening_entries-IsOrderly manifest a i =
      continue-keeps IsOrderly _ _ (append-IsOrderly _ _ _ a i) (λ s _ j.
        continue-keeps IsOrderly _ _ (append-IsOrderly _ _ _ s j)
          (λ t _ k. append-IsOrderly _ _ _ t k))

  new_aggregate-IsOrderly : (manifest : ExecutionManifest) → IsOrderly (new_aggregate manifest)
  new_aggregate-IsOrderly manifest = record {
    single = omega arith;
    numbered = tt;
    governed = λ h. cc;
    backed = inl refl;
  }

  store_manifest-AllOrderly :
      (manifest : ExecutionManifest) (engine : Engine)
      → AllOrderly engine
      → AllOrderly (store_manifest manifest engine).0
  unfolding store_manifest
  store_manifest-AllOrderly manifest engine all = set-AllOrderly manifest.id _ engine all (
      opening_entries-IsOrderly manifest (new_aggregate manifest)
        (new_aggregate-IsOrderly manifest))

  build_manifest-AllOrderly :
      (input : ManifestInput) (engine : Engine)
      → AllOrderly engine
      → AllOrderly (build_manifest input engine).0
  unfolding build_manifest
  build_manifest-AllOrderly input engine all = attempt-keeps AllOrderly engine _ _ all (λ _ _.
      attempt-keeps AllOrderly engine _ _ all (λ _ _.
        attempt-keeps AllOrderly engine _ _ all (λ _ _.
          attempt-keeps AllOrderly engine _ _ all (λ _ _.
            attempt-keeps AllOrderly engine _ _ all (λ _ _.
              attempt-keeps AllOrderly engine _ _ all (λ _ _.
                attempt-keeps AllOrderly engine _ _ all (λ _ _.
                  attempt-keeps AllOrderly engine _ _ all (λ _ _.
                    attempt-keeps AllOrderly engine _ _ all (λ _ _.
                      attempt-keeps AllOrderly engine _ _ all (λ _ _.
                        attempt-keeps AllOrderly engine _ _ all (λ _ _.
                          attempt-keeps AllOrderly engine _ _ all (λ _ _.
                            attempt-keeps AllOrderly engine _ _ all (λ _ _.
                              attempt-keeps AllOrderly engine _ _ all (λ _ _.
                                attempt-keeps AllOrderly engine _ _ all (λ _ _.
                                  attempt-keeps AllOrderly engine _ _ all (λ _ _.
                                    attempt-keeps AllOrderly engine _ _ all
                                      (λ _ _. all)))))))))))))))))

  create_manifest-AllOrderly :
      (input : ManifestInput) (engine : Engine)
      → AllOrderly engine
      → AllOrderly (create_manifest input engine).0
  unfolding create_manifest
  create_manifest-AllOrderly input engine all =
      continue-keeps AllOrderly _ _ (build_manifest-AllOrderly input engine all) (λ e m i.
        current-keeps AllOrderly e _ (
          attempt-keeps AllOrderly e _ _ i
            (λ _ _. continue-keeps AllOrderly _ _ (store_manifest-AllOrderly m e i) (λ _ _ j. j))))

  pub data Step : Engine → Engine → Type 0 where
    creating : (e : Engine) (input : ManifestInput) → Step e (create_manifest input e).0
    receiving : (e : Engine) (input : ExecutionReceipt) → Step e (record_receipt input e).0
    observing : (e : Engine) (input : ObservedEffect) → Step e (observe_effect input e).0
    reconciling : (e : Engine) (input : EffectReconciliation) → Step e (reconcile input e).0
    attaching :
        (e : Engine) (input : ExecutionEvidenceReference) → Step e (attach_evidence input e).0
    verifying : (e : Engine) (input : VerificationResult) → Step e (record_verification input e).0
    compensating :
        (e : Engine) (input : CompensatingAction) → Step e (record_compensation input e).0
    deciding : (e : Engine) (input : DecisionInput) → Step e (decide input e).0

  pub data Reachable : Engine → Type 0 where
    started : Reachable []
    after : {e f : Engine} → Reachable e → Step e f → Reachable f

  step-AllOrderly : {e f : Engine} → Step e f → AllOrderly e → AllOrderly f
  unfolding record_receipt observe_effect reconcile attach_evidence record_verification
      record_compensation decide
  step-AllOrderly (creating e input) all = create_manifest-AllOrderly input e all
  step-AllOrderly (receiving e input) all =
      on_aggregate-AllOrderly _ _ e (receive-IsOrderly input) all
  step-AllOrderly (observing e input) all =
      on_aggregate-AllOrderly _ _ e (observe-IsOrderly input) all
  step-AllOrderly (reconciling e input) all =
      on_aggregate-AllOrderly _ _ e (settle-IsOrderly input) all
  step-AllOrderly (attaching e input) all =
      on_aggregate-AllOrderly _ _ e (attach-IsOrderly input) all
  step-AllOrderly (verifying e input) all =
      on_aggregate-AllOrderly _ _ e (verify-IsOrderly input) all
  step-AllOrderly (compensating e input) all =
      on_aggregate-AllOrderly _ _ e (compensate-IsOrderly input) all
  step-AllOrderly (deciding e input) all = on_aggregate-AllOrderly _ _ e (judge-IsOrderly input) all

  reachable-AllOrderly : {e : Engine} → Reachable e → AllOrderly e
  unfolding get
  reachable-AllOrderly started = λ id a h. absurd (cc)
  reachable-AllOrderly (after r s) = step-AllOrderly s (reachable-AllOrderly r)

  -- Whatever is asked of an engine, an execution has at most one semantic commit, and then a
  -- receipt of success; only an authorized manifest has a receipt; and the journal is numbered from
  -- one on without a gap.
  pub reachable-IsOrderly :
      (e : Engine) (m : Text) (a : ExecutionAggregate)
      → Reachable e
      → execution e m ≡ ok (some a)
      → IsOrderly a
  reachable-IsOrderly e m a r h =
      let (id, g) = execution-get e m a h in reachable-AllOrderly r id a g
