-- ===== src/Effects/Execution/Accepting.antt =====
-- packages/effects/src/index.ts: what an accepted execution and a semantic commit stand on.
use woyengi.Base.{
  Option, none, some, List, [], ◌∷◌, ◌++◌, Text, text, Bool, true, false, not, ◌≡◌, refl, sym, ap,
  arith, In, inl, inr, length, is_some, if◌then◌else◌, ltb, subst, ◌==◌,
}
use woyengi.Base.Dict.{member, member-In, member_of_In}
use woyengi.Effects.Records.{
  ManifestStatus, ReceiptStatus, VerificationResult, authorized, ExecutionAggregate, ExpectedEffect,
  ExecutionReceipt, succeeded, failed, blocked, ObservedEffect, EffectReconciliation,
  ReconciliationStatus, confirmed, diverged, uncertain,
}
use woyengi.Effects.Execution.{is_authorized}
use woyengi.Effects.Execution.Decision.{
  is_succeeded, status_reasons, select_verification, reason_if, latest_reconciliation,
  latest_observation, effect_reasons, all_effect_reasons, missing_evidence, has_succeeded,
  evidence_ids_of, reasons_of, acceptable, reconciliation_reasons,
}
use woyengi.Effects.Execution.Sufficient.{
  IsSufficient, over_budget, select_verification-found, found_of_select_verification,
}

-- An effect that was observed, and whose latest reconciliation confirms it.
pub record IsSettled (a : ExecutionAggregate) (e : ExpectedEffect) : Type 0 where
  pub observed : (o : ObservedEffect) × (latest_observation a e.id ≡ some o)
  pub reconciled :
      (r : EffectReconciliation) × (latest_reconciliation a e.id ≡ some r) × (r.status ≡ confirmed)

-- What has to hold before an execution is accepted under a verification.
pub record IsAcceptable (a : ExecutionAggregate) (v : VerificationResult) : Type 0 where
  pub uncommitted : a.semantic_commits ≡ []
  pub released : a.manifest.status ≡ authorized
  pub executed : (r : ExecutionReceipt) × (a.receipt ≡ some r) × (r.status ≡ succeeded)
  pub settled : (e : ExpectedEffect) → In e a.manifest.effect_plan.effects → IsSettled a e
  pub evidenced :
      (id : Text)
      → In id a.manifest.verification_contract.required_evidence_ids
      → In id (evidence_ids_of a)
  pub within_budget : over_budget a ≡ false
  pub recorded : In v a.verifications
  pub sufficient : IsSufficient a.manifest.verification_contract v

append-nil : {A : Type 0} (xs ys : List A) → (xs ++ ys) ≡ [] → (xs ≡ []) × (ys ≡ [])
append-nil [] ys h = (refl, h)
append-nil (x ∷ xs) ys h = absurd (cc)

nil_append : {A : Type 0} {xs ys : List A} → xs ≡ [] → ys ≡ [] → (xs ++ ys) ≡ []
nil_append h k = rw (h, k) refl

reason_if-false : (t : Text) {b : Bool} → b ≡ false → reason_if b t ≡ []
reason_if-false t h = rw h refl

reason_if-nil : (b : Bool) (t : Text) → reason_if b t ≡ [] → b ≡ false
reason_if-nil true t h = cc
reason_if-nil false t h = refl

all_effect_reasons-nil :
    (a : ExecutionAggregate) (es : List ExpectedEffect)
    → all_effect_reasons a es ≡ []
    → (e : ExpectedEffect) → In e es
    → effect_reasons a e ≡ []
unfolding all_effect_reasons
all_effect_reasons-nil a [] h e i = absurd i
all_effect_reasons-nil a (x ∷ xs) h e (inl k) =
    rw k (append-nil (effect_reasons a x) (all_effect_reasons a xs) h).0
all_effect_reasons-nil a (x ∷ xs) h e (inr i) =
    all_effect_reasons-nil a xs (append-nil (effect_reasons a x) (all_effect_reasons a xs) h).1 e i

all_effect_reasons_of_nil :
    (a : ExecutionAggregate) (es : List ExpectedEffect)
    → ((e : ExpectedEffect) → In e es → effect_reasons a e ≡ [])
    → all_effect_reasons a es ≡ []
unfolding all_effect_reasons
all_effect_reasons_of_nil a [] h = refl
all_effect_reasons_of_nil a (x ∷ xs) h =
    rw (h x (inl refl), all_effect_reasons_of_nil a xs (λ e i. h e (inr i))) refl

not-false : {b : Bool} → not b ≡ false → b ≡ true
not-false h = ground arith

missing_evidence-nil :
    (attached ids : List Text)
    → missing_evidence attached ids ≡ []
    → (id : Text) → In id ids
    → In id attached
unfolding missing_evidence
missing_evidence-nil attached [] h id i = absurd i
missing_evidence-nil attached (x ∷ xs) h id (inl k) =
    subst (λ x. In x attached) (sym k)
      (member-In x attached (
        not-false (
          reason_if-nil (not (member x attached)) (text "MISSING_EVIDENCE:" ++ x)
            (append-nil (reason_if (not (member x attached)) (text "MISSING_EVIDENCE:" ++ x)) _
              h).0)))
missing_evidence-nil attached (x ∷ xs) h id (inr i) =
    missing_evidence-nil attached xs
      (append-nil (reason_if (not (member x attached)) (text "MISSING_EVIDENCE:" ++ x)) _ h).1 id i

missing_evidence_of_nil :
    (attached ids : List Text)
    → ((id : Text) → In id ids → In id attached)
    → missing_evidence attached ids ≡ []
unfolding missing_evidence
missing_evidence_of_nil attached [] h = refl
missing_evidence_of_nil attached (x ∷ xs) h =
    rw
      (
        member_of_In x attached (h x (inl refl)),
        missing_evidence_of_nil attached xs (λ i j. h i (inr j)),
      )
      refl

length-zero : {A : Type 0} (xs : List A) → ltb 0 (length xs) ≡ false → xs ≡ []
length-zero [] h = refl
length-zero (x ∷ xs) h = absurd (ground arith)

is_authorized-eq : (s : ManifestStatus) → is_authorized s ≡ true → s ≡ authorized
is_authorized-eq authorized h = refl
is_authorized-eq blocked h = absurd (cc)

is_some-some : {A : Type 0} (o : Option A) → is_some o ≡ true → (a : A) × (o ≡ some a)
is_some-some none h = absurd (cc)
is_some-some (some a) h = (a, refl)

status_reasons-nil :
    (e : ExpectedEffect) (s : ReconciliationStatus) → status_reasons e s ≡ [] → s ≡ confirmed
status_reasons-nil e confirmed h = refl
status_reasons-nil e diverged h = absurd (cc)
status_reasons-nil e uncertain h = absurd (cc)

reconciliation_reasons-nil :
    (e : ExpectedEffect) (o : Option EffectReconciliation)
    → reconciliation_reasons e o ≡ []
    → (r : EffectReconciliation) × (o ≡ some r) × (r.status ≡ confirmed)
unfolding reconciliation_reasons
reconciliation_reasons-nil e none h = absurd (cc)
reconciliation_reasons-nil e (some r) h = (r, refl, status_reasons-nil e r.status h)

effect_reasons-IsSettled :
    (a : ExecutionAggregate) (e : ExpectedEffect) → effect_reasons a e ≡ [] → IsSettled a e
unfolding effect_reasons
effect_reasons-IsSettled a e h =
    let (first, second) =
      append-nil
        (reason_if (not (is_some (latest_observation a e.id)))
          (text "MISSING_OBSERVATION:" ++ e.id))
        (reconciliation_reasons e (latest_reconciliation a e.id)) h in
    record {
      observed =
          is_some-some (latest_observation a e.id)
            (not-false (reason_if-nil _ (text "MISSING_OBSERVATION:" ++ e.id) first));
      reconciled = reconciliation_reasons-nil e (latest_reconciliation a e.id) second;
    }

effect_reasons_of_IsSettled :
    (a : ExecutionAggregate) (e : ExpectedEffect) → IsSettled a e → effect_reasons a e ≡ []
unfolding effect_reasons reconciliation_reasons
effect_reasons_of_IsSettled a e s =
    let (o, h) = s.observed in let (r, k, c) = s.reconciled in rw (h, k, c) refl

is_succeeded-eq : (s : ReceiptStatus) → is_succeeded s ≡ true → s ≡ succeeded
is_succeeded-eq succeeded h = refl
is_succeeded-eq failed h = absurd (cc)

has_succeeded-receipt :
    (o : Option ExecutionReceipt)
    → has_succeeded o ≡ true
    → (r : ExecutionReceipt) × (o ≡ some r) × (r.status ≡ succeeded)
has_succeeded-receipt none h = absurd (cc)
has_succeeded-receipt (some r) h = (r, refl, is_succeeded-eq r.status h)

reasons_of-IsAcceptable :
    (a : ExecutionAggregate) (v : VerificationResult)
    → reasons_of a ≡ []
    → (select_verification a).0 ≡ some v
    → IsAcceptable a v
unfolding reasons_of
reasons_of-IsAcceptable a v h k =
    let (h1, t1) =
      append-nil
        (reason_if (ltb 0 (length a.semantic_commits)) (text "SEMANTIC_COMMIT_ALREADY_EXISTS")) _
        h in
    let (h2, t2) =
      append-nil
        (reason_if (not (is_authorized a.manifest.status)) (text "MANIFEST_NOT_AUTHORIZED")) _ t1 in
    let (h3, t3) =
      append-nil (reason_if (not (has_succeeded a.receipt)) (text "EXECUTION_NOT_SUCCEEDED")) _
        t2 in
    let (h4, t4) = append-nil (all_effect_reasons a a.manifest.effect_plan.effects) _ t3 in
    let (h5, t5) =
      append-nil
        (missing_evidence (evidence_ids_of a)
          a.manifest.verification_contract.required_evidence_ids)
        _ t4 in
    let (within, i, s) = select_verification-found a v k in
    record {
      uncommitted =
          length-zero a.semantic_commits
            (reason_if-nil _ (text "SEMANTIC_COMMIT_ALREADY_EXISTS") h1);
      released =
          is_authorized-eq a.manifest.status
            (not-false (reason_if-nil _ (text "MANIFEST_NOT_AUTHORIZED") h2));
      executed =
          has_succeeded-receipt a.receipt
            (not-false (reason_if-nil _ (text "EXECUTION_NOT_SUCCEEDED") h3));
      settled = λ e j.
          effect_reasons-IsSettled a e
            (all_effect_reasons-nil a a.manifest.effect_plan.effects h4 e j);
      evidenced =
          missing_evidence-nil (evidence_ids_of a)
            a.manifest.verification_contract.required_evidence_ids h5;
      within_budget = within;
      recorded = i;
      sufficient = s;
    }

reasons_of-IsAcceptable' :
    (a : ExecutionAggregate) (v : VerificationResult)
    → IsAcceptable a v
    → (reasons_of a ≡ []) × ((w : VerificationResult) × ((select_verification a).0 ≡ some w))
unfolding reasons_of
reasons_of-IsAcceptable' a v h =
    let (w, found) = found_of_select_verification a v h.within_budget h.recorded h.sufficient in
    let (r, receipt, success) = h.executed in
    let effects =
      all_effect_reasons_of_nil a a.manifest.effect_plan.effects
        (λ e i. effect_reasons_of_IsSettled a e (h.settled e i)) in
    let evidence =
      missing_evidence_of_nil (evidence_ids_of a)
        a.manifest.verification_contract.required_evidence_ids h.evidenced in
    (
      nil_append (reason_if-false _ (ap (λ cs. ltb 0 (length cs)) h.uncommitted)) (
          nil_append (reason_if-false _ (ap (λ s. not (is_authorized s)) h.released)) (
            nil_append (reason_if-false _ (rw (receipt, success) refl)) (
              nil_append effects (
                nil_append evidence
                  (ap (λ o. elim o [ none ↦ (select_verification a).1 | some _ ↦ [] ]) found))))),
      (w, found),
    )

acceptable-eq :
    (a : ExecutionAggregate) (v : VerificationResult)
    → acceptable a ≡ some v
    → (reasons_of a ≡ []) × ((select_verification a).0 ≡ some v)
unfolding acceptable
acceptable-eq a v h = go (reasons_of a) refl h
  where
    go :
        (reasons : List Text)
        → reasons_of a ≡ reasons
        → (if length reasons == 0 then (select_verification a).0 else none) ≡ some v
        → (reasons_of a ≡ []) × ((select_verification a).0 ≡ some v)
    go [] e k = (e, k)
    go (r ∷ rs) e k = absurd (ground (arith, k))

pub acceptable-IsAcceptable :
    (a : ExecutionAggregate) (v : VerificationResult) → acceptable a ≡ some v → IsAcceptable a v
acceptable-IsAcceptable a v h =
    let (empty, found) = acceptable-eq a v h in reasons_of-IsAcceptable a v empty found

pub acceptable_of_IsAcceptable :
    (a : ExecutionAggregate) (v : VerificationResult)
    → IsAcceptable a v
    → (w : VerificationResult) × (acceptable a ≡ some w)
unfolding acceptable
acceptable_of_IsAcceptable a v h =
    let (empty, (w, found)) = reasons_of-IsAcceptable' a v h in (w, rw empty found)
