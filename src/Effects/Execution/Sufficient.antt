-- ===== src/Effects/Execution/Sufficient.antt =====
-- packages/effects/src/index.ts: `selectVerification` finds a verification that meets the contract.
use woyengi.Base.{
  ◌≤◌, Option, none, some, List, [], ◌∷◌, Text, Bool, true, false, ◌≡◌, refl, sym, ◌∙◌, arith, In,
  inl, inr, In-append, In_append_left, In_append_right, same-eq, same_refl, all-In, all_of_In,
  Option-cases, subst,
}
use woyengi.Base.Dict.{add, member, member-In, member_of_In}
use woyengi.Base.Number.{number_lt, number_zero}
use mathlib.Core.List.{reverse, reverse-append}
use woyengi.Effects.Records.{
  VerificationContract, VerificationResult, VerificationStatus, verified, ExecutionAggregate,
  rejected, inconclusive,
}
use woyengi.Effects.Execution.Decision.{
  verdict, is_verified, shortfall, total_cost, search_results, select_verification,
}

-- A verification that meets the contract.
pub record IsSufficient (c : VerificationContract) (v : VerificationResult) : Type 0 where
  pub passed : v.status ≡ verified
  pub independent : c.independent_verifier_required ≡ true → v.independent_from_provider ≡ true
  pub in_time : v.attempt ≤ c.maximum_attempts
  pub currency : v.cost_currency ≡ c.currency
  pub affordable : number_lt c.maximum_cost v.cost_amount ≡ false
  pub stopped : v.stop_condition_met ≡ true
  pub covering : (id : Text) → In id c.required_evidence_ids → In id v.evidence_ids

is_verified-eq : (s : VerificationStatus) → is_verified s ≡ true → s ≡ verified
is_verified-eq verified h = refl
is_verified-eq rejected h = cc
is_verified-eq inconclusive h = cc

shortfall-IsSufficient :
    (c : VerificationContract) (v : VerificationResult) → shortfall c v ≡ none → IsSufficient c v
unfolding shortfall
shortfall-IsSufficient c v h = record {
  passed = is_verified-eq v.status (ground arith);
  independent = ground arith;
  in_time = ground arith;
  currency = same-eq _ _ (ground arith);
  affordable = ground arith;
  stopped = ground arith;
  covering = λ id i.
      member-In id v.evidence_ids
        (all-In (λ x. member x v.evidence_ids) id c.required_evidence_ids i (ground arith));
}

IsSufficient-shortfall :
    (c : VerificationContract) (v : VerificationResult) → IsSufficient c v → shortfall c v ≡ none
unfolding shortfall
IsSufficient-shortfall c v s =
    let covered =
      all_of_In (λ x. member x v.evidence_ids) c.required_evidence_ids
        (λ id i. member_of_In id v.evidence_ids (s.covering id i)) in
    rw (s.passed, s.currency, same_refl c.currency)
      (ground (arith, s.independent, s.in_time, s.affordable, s.stopped))

pub In-reverse : {A : Type 0} (a : A) (xs : List A) → In a (reverse xs) → In a xs
In-reverse a [] i = i
In-reverse a (x ∷ xs) i =
    elim (In-append a (reverse xs) (x ∷ []) (rw (reverse-append (x ∷ []) xs) at i)) [
      | inl j ↦ inr (In-reverse a xs j)
      | inr j ↦ elim j [ inl e ↦ inl e | inr k ↦ absurd k ]
    ]

In_reverse : {A : Type 0} (a : A) (xs : List A) → In a xs → In a (reverse xs)
In_reverse a [] i = i
In_reverse a (x ∷ xs) (inl e) =
    rw (reverse-append (x ∷ []) xs) (In_append_right a (reverse xs) (x ∷ []) (inl e))
In_reverse a (x ∷ xs) (inr i) =
    rw (reverse-append (x ∷ []) xs) (In_append_left a (reverse xs) (x ∷ []) (In_reverse a xs i))

pub none-some : {A B : Type 0} {a : A} → some a ≡ none → B
none-some h = absurd (cc)

some-eq : {A : Type 0} {a b : A} → some a ≡ some b → a ≡ b
some-eq h = cc

-- The loop finds a sufficient result exactly when one is recorded.
search_results-found :
    (c : VerificationContract) (reasons : List Text) (vs : List VerificationResult)
    (v : VerificationResult)
    → (search_results c reasons vs).0 ≡ some v
    → In v vs × IsSufficient c v
unfolding search_results
search_results-found c reasons [] v h = absurd (cc)
search_results-found c reasons (r ∷ rs) v h = elim (Option-cases (shortfall c r)) [
  | inl e ↦
      let k : some r ≡ some v = rw (search_results, e) at h in
      (
        inl (sym (some-eq k)),
        subst (λ x. IsSufficient c x) (some-eq k) (shortfall-IsSufficient c r e),
      )
  | inr (reason, e) ↦
      let (i, s) = search_results-found c (add reason reasons) rs v (rw (search_results, e) at h) in
      (inr i, s)
]

found_of_search_results :
    (c : VerificationContract) (reasons : List Text) (vs : List VerificationResult)
    (v : VerificationResult)
    → In v vs
    → IsSufficient c v
    → (w : VerificationResult) × ((search_results c reasons vs).0 ≡ some w)
unfolding search_results
found_of_search_results c reasons [] v i s = absurd i
found_of_search_results c reasons (r ∷ rs) v i s = elim (Option-cases (shortfall c r)) [
  | inl e ↦ rw (search_results, e) (r, refl)
  | inr (reason, e) ↦ elim i [
    | inl k ↦ none-some (sym e ∙ subst (λ x. shortfall c x ≡ none) k (IsSufficient-shortfall c v s))
    | inr j ↦ rw (search_results, e) (found_of_search_results c (add reason reasons) rs v j s)
  ]
]

verdict-some :
    (over : Bool) (found : Option VerificationResult) (reasons : List Text) (v : VerificationResult)
    → (verdict over found reasons).0 ≡ some v
    → (over ≡ false) × (found ≡ some v)
verdict-some true found reasons v h = none-some (sym h)
verdict-some false none reasons v h = none-some (sym h)
verdict-some false (some r) reasons v h = (refl, h)

abbrev pub over_budget : ExecutionAggregate → Bool
over_budget a =
    number_lt a.manifest.verification_contract.maximum_cost
      (total_cost a.manifest.verification_contract.currency number_zero a.verifications)

pub select_verification-found :
    (a : ExecutionAggregate) (v : VerificationResult)
    → (select_verification a).0 ≡ some v
    → (over_budget a ≡ false)
      × In v a.verifications
      × IsSufficient a.manifest.verification_contract v
unfolding select_verification
select_verification-found a v h =
    let contract = a.manifest.verification_contract in
    let (within, k) =
      verdict-some (over_budget a) (search_results contract [] (reverse a.verifications)).0 _ v h in
    let (i, s) = search_results-found contract [] (reverse a.verifications) v k in
    (within, In-reverse v a.verifications i, s)

pub found_of_select_verification :
    (a : ExecutionAggregate) (v : VerificationResult)
    → over_budget a ≡ false
    → In v a.verifications
    → IsSufficient a.manifest.verification_contract v
    → (w : VerificationResult) × ((select_verification a).0 ≡ some w)
unfolding select_verification
found_of_select_verification a v within i s =
    let (w, e) =
      found_of_search_results a.manifest.verification_contract [] (reverse a.verifications) v
        (In_reverse v a.verifications i) s in
    (w, rw (within, e) refl)
