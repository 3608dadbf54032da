-- ===== src/Authority/Ranking.antt =====
-- packages/authority/src/index.ts: the governing policy of each candidate, and the ranking.
use woyengi.Base.{
  none, some, List, [], ◌∷◌, map, text, text_discrete, Bool, true, false, ok, ◌≡◌, ◌≢◌, refl, sym,
  arith, In, In_keep, In-keep, inl, inr, ◌||◌, same, find, first, keep, Host, IsConsistent,
  Bool-cases, ap, ◌∙◌, All-In, Ordering, or_else, namespaced, subst,
}
use woyengi.Base.Compare.{
  known_number, compare_double-number, lexicographic, by_key, descending,
  compare_number-IsComparator,
}
use woyengi.Base.Number.{compare_number, number_zero, number_one, double_lt, finite, nan}
use woyengi.Base.Sort.{sort, In-sort, In_sort, IsComparator, Sorted, sort-Sorted, not_after}
use woyengi.Authority.{
  AuthorityPolicy, AuthorityCandidate, AuthorityAssessment, AuthorityTraceItem, Question,
  GrantedAuthority, evaluate_policy, policies_of, authority_of, compare_policies, matched_policies,
  assess, compare_assessments, rationale_of,
}
use woyengi.Authority.Governing.{Covers, matched-Covers, Covers-matched}

-- The authority that a candidate gets: none where no policy covers it, and else that of a covering
-- policy with the highest level.
pub data IsGoverned (ps : List AuthorityPolicy) (c : AuthorityCandidate) (q : Question)
    (g : GrantedAuthority) : Type 0 where
  ungoverned :
      ((p : AuthorityPolicy) → In p ps → Covers p c q → ⊥)
      → g ≡ record {
        level = number_zero;
        basis = text "no matching authority policy";
        policy_id = none;
      }
      → IsGoverned ps c q g
  governed :
      (p : AuthorityPolicy)
      → In p ps
      → Covers p c q
      → ((p' : AuthorityPolicy)
          → In p' ps
          → Covers p' c q
          → compare_number p'.level p.level ≢ Ordering.gt)
      → g ≡ record { level = p.level; basis = p.basis; policy_id = some p.id }
      → IsGoverned ps c q g

-- No two policies have the same id.
abbrev pub IsKeyed : List AuthorityPolicy → Type 0
IsKeyed ps = (p p' : AuthorityPolicy) → In p ps → In p' ps → p.id ≡ p'.id → p ≡ p'

find_id :
    (p : AuthorityPolicy) (xs : List AuthorityPolicy)
    → In p xs
    → ((x : AuthorityPolicy) → In x xs → x.id ≡ p.id → x ≡ p)
    → find (λ (x : AuthorityPolicy). same x.id p.id) xs ≡ some p
unfolding find
find_id p [] i f = absurd i
find_id p (x ∷ xs) i f = elim (text_discrete x.id p.id) [
  | yes e ↦ let q = f x (inl refl) e in ground arith
  | no n ↦ elim i [
    | inl q ↦ absurd (n (ap (λ (z : AuthorityPolicy). z.id) (sym q)))
    | inr j ↦ ground (arith, find_id p xs j (λ z k e. f z (inr k) e))
  ]
]

policies_of-found :
    (ps : List AuthorityPolicy) (p : AuthorityPolicy) (item : AuthorityTraceItem)
    (items : List AuthorityTraceItem)
    → find (λ (x : AuthorityPolicy). same x.id item.policy_id) ps ≡ some p
    → policies_of ps (item ∷ items) ≡ p ∷ policies_of ps items
unfolding policies_of
policies_of-found ps p item items e = rw (e, policies_of) refl

module _ (ps : List AuthorityPolicy) (c : AuthorityCandidate) (q : Question)
    (keyed : IsKeyed ps) where
  abbrev is_match : AuthorityPolicy → Bool
  is_match p = (evaluate_policy p c q).matched

  policies_of-matched :
      (xs : List AuthorityPolicy)
      → ((x : AuthorityPolicy) → In x xs → In x ps)
      → policies_of ps (keep (λ i. i.matched) (map (λ p. evaluate_policy p c q) xs))
        ≡ keep is_match xs
  unfolding policies_of keep evaluate_policy
  policies_of-matched [] f = refl
  policies_of-matched (x ∷ xs) f = elim (Bool-cases (is_match x)) [
    | inl t ↦ rw t (
        policies_of-found ps x (evaluate_policy x c q) _
          (find_id x ps (f x (inl refl)) (λ y j e. keyed y x j (f x (inl refl)) e))
        ∙ ap (λ r. x ∷ r) (policies_of-matched xs (λ y j. f y (inr j))))
    | inr n ↦ rw n (policies_of-matched xs (λ y j. f y (inr j)))
  ]

  module _ ⦃h : Host⦄ (consistent : IsConsistent h) where
    compare_policies-IsComparator : IsComparator compare_policies
    compare_policies-IsComparator =
        lexicographic (λ a b. compare_number b.level a.level) (λ a b. h.locale_compare a.id b.id)
          (descending (λ a b. compare_number a.level b.level)
            (by_key (λ (p : AuthorityPolicy). p.level) compare_number compare_number-IsComparator))
          (by_key (λ (p : AuthorityPolicy). p.id) h.locale_compare consistent.collation)

    governing_first :
        (sorted : List AuthorityPolicy)
        → Sorted compare_policies sorted
        → ((p : AuthorityPolicy) → In p sorted → In p ps × Covers p c q)
        → ((p : AuthorityPolicy) → In p ps → Covers p c q → In p sorted)
        → IsGoverned ps c q (authority_of (first sorted))
    unfolding authority_of
    governing_first [] s sound complete = ungoverned (λ p i v. complete p i v) refl
    governing_first (p ∷ rest) (above, s) sound complete =
        let (i, v) = sound p (inl refl) in
        governed p i v
          (λ p' i' v' gt. elim (complete p' i' v') [
            | inl e ↦ same_level p p' e gt
            | inr j ↦
                let k = All-In (λ y. not_after compare_policies p y ≡ true) p' rest j above in
                ground arith
          ])
          refl
      where
        same_level :
            (x y : AuthorityPolicy) → y ≡ x → compare_number y.level x.level ≡ Ordering.gt → ⊥
        same_level x y e gt =
            let flipped = compare_number-IsComparator.flip x.level y.level in
            let k : compare_number x.level x.level ≡ Ordering.gt = rw e at gt in
            let f = compare_number-IsComparator.flip x.level x.level in ground arith

    matched_policies-IsGoverned :
        IsGoverned ps c q
          (authority_of (first (matched_policies ps (map (λ p. evaluate_policy p c q) ps))))
    unfolding matched_policies
    matched_policies-IsGoverned =
        let matching = keep is_match ps in
        subst (λ xs. IsGoverned ps c q (authority_of (first (sort compare_policies xs))))
          (sym (policies_of-matched ps (λ p i. i)))
          (governing_first (sort compare_policies matching)
            (sort-Sorted compare_policies-IsComparator matching)
            (λ p i.
              let (j, t) = In-keep is_match p ps (In-sort compare_policies p matching i) in
              (j, matched-Covers p c q t))
            (λ p i v.
              In_sort compare_policies p matching
                (In_keep is_match p ps i (Covers-matched p c q v))))

-- A candidate that `assess` accepts, with a number as its confidence, and what it makes of it.
pub record IsValid (input valid : AuthorityCandidate) : Type 0 where
  pub in_range :
      (double_lt input.confidence (finite number_zero)
        || double_lt (finite number_one) input.confidence)
      ≡ false
  pub number : input.confidence ≢ nan
  pub id : namespaced (text "candidate id") input.id ≡ ok valid.id
  pub principal : namespaced (text "candidate principal") input.principal ≡ ok valid.principal
  pub confidence : valid.confidence ≡ input.confidence

module _ ⦃h : Host⦄ where
  -- The comparator of assessments whose confidence is a number.
  abbrev pub compare_numeric : AuthorityAssessment → AuthorityAssessment → Ordering
  compare_numeric left right = or_else (compare_number right.authority.level left.authority.level) (
      or_else
        (compare_number (known_number right.candidate.confidence)
          (known_number left.candidate.confidence))
        (h.locale_compare left.candidate.id right.candidate.id))

  pub compare_assessments-numeric :
      (a b : AuthorityAssessment)
      → a.candidate.confidence ≢ nan
      → b.candidate.confidence ≢ nan
      → compare_assessments a b ≡ compare_numeric a b
  compare_assessments-numeric a b n m =
      rw (compare_double-number b.candidate.confidence a.candidate.confidence m n) refl

module _ ⦃h : Host⦄ (consistent : IsConsistent h) where
  pub compare_numeric-IsComparator : IsComparator compare_numeric
  compare_numeric-IsComparator =
      lexicographic (λ a b. compare_number b.authority.level a.authority.level) _
        (descending (λ a b. compare_number a.authority.level b.authority.level)
          (by_key (λ (a : AuthorityAssessment). a.authority.level) compare_number
            compare_number-IsComparator))
        (lexicographic
          (λ a b.
            compare_number (known_number b.candidate.confidence)
              (known_number a.candidate.confidence))
          _
          (descending
            (λ a b.
              compare_number (known_number a.candidate.confidence)
                (known_number b.candidate.confidence))
            (by_key (λ (a : AuthorityAssessment). known_number a.candidate.confidence)
              compare_number compare_number-IsComparator))
          (by_key (λ (a : AuthorityAssessment). a.candidate.id) h.locale_compare
            consistent.collation))

  pub assess-IsGoverned :
      (ps : List AuthorityPolicy) (q : Question) (input valid : AuthorityCandidate)
      → IsKeyed ps
      → IsValid input valid
      → (a : AuthorityAssessment) × (assess ps q input ≡ ok a)
        × (a.candidate ≡ valid)
        × IsGoverned ps valid q a.authority
  unfolding assess
  assess-IsGoverned ps q input valid keyed v =
      let trace = map (λ p. evaluate_policy p valid q) ps in
      let governing = first (matched_policies ps trace) in
      (
        record {
          candidate = valid;
          authority = authority_of governing;
          rationale = rationale_of valid.id governing;
          trace = trace;
        },
        rw (v.in_range, v.id, v.principal, ← v.confidence) refl,
        refl,
        matched_policies-IsGoverned ps valid q keyed consistent,
      )
