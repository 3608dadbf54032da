-- ===== src/Effects/Execution/Recorded.antt =====
-- packages/effects/src/index.ts: every method that records keeps an execution orderly.
use woyengi.Base.{
  Option, none, some, Text, ◌≡◌, refl, inl, inr, Result, ok, ErrorClass, ◌⊎◌, Host, not, is_some,
  throw_if,
}
use woyengi.Base.Programs.{
  Program, continue, continue-keeps, attempt-keeps, current-keeps, change-keeps,
}
use woyengi.Effects.Records.{
  JournalEntryKind, ExecutionAggregate, ExecutionReceipt, ManifestStatus, authorized, blocked,
  ObservedEffect, EffectReconciliation, ExecutionEvidenceReference, VerificationResult,
  CompensatingAction,
}
use woyengi.Effects.Execution.{append, is_authorized}
use woyengi.Effects.Execution.Recording.{receive, observe, settle, attach, verify, compensate}
use woyengi.Effects.Execution.Orderly.{HasSucceeded, IsOrderly, append-IsOrderly}

authorized_of_guard :
    (s : ManifestStatus) (c : ErrorClass) (m : Text) {u : Unit {0}}
    → throw_if (not (is_authorized s)) c m ≡ ok u
    → s ≡ authorized
authorized_of_guard authorized c m g = refl
authorized_of_guard blocked c m g = cc

uncommitted :
    {P : Type 0} (o : Option ExecutionReceipt) (c : ErrorClass) (m : Text) {u : Unit {0}}
    → throw_if (is_some o) c m ≡ ok u
    → P ⊎ HasSucceeded o
    → P
uncommitted o c m g (inl p) = p
uncommitted none c m g (inr (r, e, _)) = absurd (cc)
uncommitted (some r) c m g (inr _) = absurd (cc)

module _ ⦃h : Host⦄ where
  -- A guard or a check of a method that throws leaves the execution as it was.
  guarded :
      {A B : Type 0} (a : ExecutionAggregate) (r : Result A)
      (next : A → Program ExecutionAggregate B)
      → IsOrderly a
      → ((x : A) → r ≡ ok x → IsOrderly (next x a).0)
      → IsOrderly (continue (a, r) next).0
  guarded a r next i k = attempt-keeps IsOrderly a r next i k

  -- The end of a method: the changed state, its journal entry, and the record that it returns.
  recorded :
      {A : Type 0} (t : ExecutionAggregate) (kind : JournalEntryKind) (id at : Text) (x : A)
      → IsOrderly t
      → IsOrderly
          (continue {A = Unit {0}}
            (t, ok tt)
            (λ _ u. continue (append kind id at u) (λ _ w. (w, ok x)))).0
  recorded t kind id at x i = change-keeps IsOrderly t _ (
      continue-keeps IsOrderly (append kind id at t) _ (append-IsOrderly kind id at t i)
        (λ w _ j. j))

  pub observe-IsOrderly :
      (input : ObservedEffect) (a : ExecutionAggregate)
      → IsOrderly a
      → IsOrderly (observe input a).0
  unfolding observe
  observe-IsOrderly input a i = current-keeps IsOrderly a _ (
      guarded a _ _ i (λ _ _. guarded a _ _ i (λ _ _. guarded a _ _ i (λ _ _.
        guarded a _ _ i (λ _ _.
          guarded a _ _ i
            (λ _ _. guarded a _ _ i (λ _ _. guarded a _ _ i (λ _ _. recorded _ _ _ _ _ i))))))))

  pub settle-IsOrderly :
      (input : EffectReconciliation) (a : ExecutionAggregate)
      → IsOrderly a
      → IsOrderly (settle input a).0
  unfolding settle
  settle-IsOrderly input a i = current-keeps IsOrderly a _ (
      guarded a _ _ i (λ _ _. guarded a _ _ i (λ _ _. guarded a _ _ i (λ _ _.
        guarded a _ _ i
          (λ _ _. guarded a _ _ i (λ _ _. guarded a _ _ i (λ _ _. recorded _ _ _ _ _ i)))))))

  pub attach-IsOrderly :
      (input : ExecutionEvidenceReference) (a : ExecutionAggregate)
      → IsOrderly a
      → IsOrderly (attach input a).0
  unfolding attach
  attach-IsOrderly input a i = current-keeps IsOrderly a _ (
      guarded a _ _ i (λ _ _.
        guarded a _ _ i
          (λ _ _. guarded a _ _ i (λ _ _. guarded a _ _ i (λ _ _. recorded _ _ _ _ _ i)))))

  pub verify-IsOrderly :
      (input : VerificationResult) (a : ExecutionAggregate)
      → IsOrderly a
      → IsOrderly (verify input a).0
  unfolding verify
  verify-IsOrderly input a i = current-keeps IsOrderly a _ (
      guarded a _ _ i (λ _ _. guarded a _ _ i (λ _ _. guarded a _ _ i (λ _ _.
        guarded a _ _ i (λ _ _. guarded a _ _ i (λ _ _. guarded a _ _ i (λ _ _.
          guarded a _ _ i
            (λ _ _. guarded a _ _ i (λ _ _. guarded a _ _ i (λ _ _. recorded _ _ _ _ _ i))))))))))

  pub compensate-IsOrderly :
      (input : CompensatingAction) (a : ExecutionAggregate)
      → IsOrderly a
      → IsOrderly (compensate input a).0
  unfolding compensate
  compensate-IsOrderly input a i = current-keeps IsOrderly a _ (
      guarded a _ _ i (λ _ _. guarded a _ _ i (λ _ _. guarded a _ _ i (λ _ _.
        guarded a _ _ i
          (λ _ _. guarded a _ _ i (λ _ _. guarded a _ _ i (λ _ _. recorded _ _ _ _ _ i)))))))

  -- A receipt is only recorded of an authorized manifest without one.
  pub receive-IsOrderly :
      (input : ExecutionReceipt) (a : ExecutionAggregate)
      → IsOrderly a
      → IsOrderly (receive input a).0
  unfolding receive
  receive-IsOrderly input a i = current-keeps IsOrderly a _ (
      guarded a _ _ i (λ _ g. guarded a _ _ i (λ _ g2. guarded a _ _ i (λ _ _.
        guarded a _ _ i (λ _ _. guarded a _ _ i (λ _ _. guarded a _ _ i (λ _ _.
          recorded _ _ _ _ _ (record {
            single = i.single;
            numbered = i.numbered;
            governed = λ _. authorized_of_guard a.manifest.status _ _ g;
            backed = inl (uncommitted a.receipt _ _ g2 i.backed);
          }))))))))
