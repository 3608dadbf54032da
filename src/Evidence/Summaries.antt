-- ===== src/Evidence/Summaries.antt =====
-- packages/evidence/src/index.ts: a summary and the records that it is made of.
use woyengi.Base.{
  List, [], ◌∷◌, Text, text, Bool, true, false, not, ok, ◌≡◌, refl, arith, In, In_keep, In-keep,
  inl, inr, ◌⊎◌, Host, ◌↔◌, keep, same, same-eq, prefixed, length, ltb, Bool-cases,
}
use woyengi.Base.Dict.{values}
use woyengi.Base.Mapping.{map_result_total}
use woyengi.Base.Sort.{sort, In-sort, In_sort}
use woyengi.Evidence.{
  Engine, EvidenceLink, EvidenceAssessment, EvidenceSummary, mixed, unresolved, is_supports,
  assessment_of, assess, summary_of, summarize, compare_links,
}
use woyengi.Evidence.Summarizing.{
  Reachable, Reachable-IsGrounded, IsAssessment, outcomes_on-In, assess-eq-ok, assess_total,
}

assessment_mixed : (p q : Bool) → assessment_of p q ≡ mixed → (p ≡ true) × (q ≡ true)
assessment_mixed true true h = (refl, refl)
assessment_mixed true false h = cc
assessment_mixed false true h = cc
assessment_mixed false false h = cc

assessment_unresolved : (p q : Bool) → assessment_of p q ≡ unresolved → (p ≡ false) × (q ≡ false)
assessment_unresolved true true h = cc
assessment_unresolved true false h = cc
assessment_unresolved false true h = cc
assessment_unresolved false false h = (refl, refl)

abbrev nonempty : {A : Type 0} → List A → Bool
nonempty xs = ltb 0 (length xs)

In_of_nonempty : {A : Type 0} (xs : List A) → nonempty xs ≡ true → (a : A) × In a xs
In_of_nonempty [] h = cc
In_of_nonempty (x ∷ xs) h = (x, inl refl)

nonempty_of_In : {A : Type 0} (a : A) (xs : List A) → In a xs → nonempty xs ≡ true
nonempty_of_In a [] i = absurd i
nonempty_of_In a (x ∷ xs) i = ground arith

empty_of_none : {A : Type 0} (xs : List A) → ((a : A) → In a xs → ⊥) → nonempty xs ≡ false
empty_of_none [] f = refl
empty_of_none (x ∷ xs) f = absurd (f x (inl refl))

module _ ⦃h : Host⦄ where
  -- What a summary of a claim has to be.
  pub record IsSummary (e : Engine) (id : Text) (s : EvidenceSummary) : Type 0 where
    pub claim : s.claim_id ≡ id
    pub supports_exactly : (a : EvidenceAssessment) → In a s.supporting → IsAssessment e id true a
    pub contradicts_exactly :
        (a : EvidenceAssessment) → In a s.contradicting → IsAssessment e id false a
    pub keeps :
        (l : EvidenceLink)
        → In l (values e.links)
        → l.claim_id ≡ id
        → (a : EvidenceAssessment) × (a.link ≡ l) × (In a s.supporting ⊎ In a s.contradicting)
    pub is_unresolved :
        s.assessment ≡ unresolved
        ↔ ((l : EvidenceLink) → In l (values e.links) → l.claim_id ≡ id → ⊥)
    pub is_mixed : s.assessment ≡ mixed ↔ (
        ((a : EvidenceAssessment) × In a s.supporting)
        × ((b : EvidenceAssessment) × In b s.contradicting))

  abbrev links_of : Engine → Text → List EvidenceLink
  links_of e id = sort compare_links (keep (λ link. same link.claim_id id) (values e.links))

  links_of-In :
      (e : Engine) (id : Text) (l : EvidenceLink)
      → In l (links_of e id) ↔ (In l (values e.links) × (l.claim_id ≡ id))
  links_of-In e id l = (
    (λ i.
        let (j, q) = In-keep (λ (x : EvidenceLink). same x.claim_id id) l _ (In-sort _ l _ i) in
        (j, same-eq l.claim_id id q)),
    (λ (j, q).
        In_sort _ l _ (In_keep (λ (x : EvidenceLink). same x.claim_id id) l _ j (ground arith))),
  )

  module _ (e : Engine) (id : Text) (rs : List EvidenceAssessment)
      (from : (a : EvidenceAssessment)
        → In a rs
        → (l : EvidenceLink) × In l (links_of e id) × (assess e l ≡ ok a))
      (to : (l : EvidenceLink)
        → In l (links_of e id)
        → (a : EvidenceAssessment) × (assess e l ≡ ok a) × In a rs) where
    is_assessment :
        (a : EvidenceAssessment) (b : Bool)
        → In a rs
        → is_supports a.link.stance ≡ b
        → IsAssessment e id b a
    is_assessment a b i st =
        let (l, j, q) = from a i in
        let (el, ev, vs) = assess-eq-ok e l a q in
        let (fwd, back) = links_of-In e id l in
        let (held, about) = fwd j in
        record {
          held = rw el held;
          about = rw el about;
          stance = st;
          evidence = rw el ev;
          checks = λ o. rw vs (outcomes_on-In e a.evidence.id o);
        }

    kept_link :
        (l : EvidenceLink)
        → In l (values e.links)
        → l.claim_id ≡ id
        → (a : EvidenceAssessment) × (a.link ≡ l)
          × (In a (keep (λ x. is_supports x.link.stance) rs)
              ⊎ In a (keep (λ x. not (is_supports x.link.stance)) rs))
    kept_link l i q =
        let (_, back) = links_of-In e id l in
        let (a, r, j) = to l (back (i, q)) in
        let (el, _, _) = assess-eq-ok e l a r in
        (
          a,
          el,
          elim (Bool-cases (is_supports a.link.stance)) [
            | inl t ↦ inl (In_keep (λ x. is_supports x.link.stance) a rs j t)
            | inr f ↦ inr (In_keep (λ x. not (is_supports x.link.stance)) a rs j (rw f refl))
          ],
        )

    summary_of-IsSummary : IsSummary e id (summary_of id rs)
    unfolding summary_of
    summary_of-IsSummary = record {
      claim = refl;
      supports_exactly = λ a i.
          let (j, t) = In-keep (λ x. is_supports x.link.stance) a rs i in is_assessment a true j t;
      contradicts_exactly = λ a i.
          let (j, t) = In-keep (λ x. not (is_supports x.link.stance)) a rs i in
          is_assessment a false j (ground arith);
      keeps = kept_link;
      is_unresolved = (
        (λ q l i t.
            let (p, r) = assessment_unresolved _ _ q in
            let (a, el, place) = kept_link l i t in
            elim place [
              | inl j ↦ let k = nonempty_of_In a _ j in cc
              | inr j ↦ let k = nonempty_of_In a _ j in cc
            ]),
        (λ f.
            rw
              (
                empty_of_none _ (λ a i.
                    let (j, t) =
                      In-keep (λ (x : EvidenceAssessment). is_supports x.link.stance) a rs i in
                    let v = is_assessment a true j t in f a.link v.held v.about),
                empty_of_none _ (λ a i.
                    let (j, t) =
                      In-keep (λ (x : EvidenceAssessment). not (is_supports x.link.stance)) a rs
                        i in
                    let v = is_assessment a false j (ground arith) in f a.link v.held v.about),
              )
              refl),
      );
      is_mixed = (
        (λ q. let (p, r) = assessment_mixed _ _ q in (In_of_nonempty _ p, In_of_nonempty _ r)),
        (λ ((a, i), (b, j)). rw (nonempty_of_In a _ i, nonempty_of_In b _ j) refl),
      );
    }

  -- On an engine that its operations built, `summarize` of a valid claim id returns, and the
  -- summary retains exactly the claim's links on the side of their stance, each with its evidence
  -- and exactly the outcomes on that evidence; it is unresolved exactly where the claim has no
  -- link, and mixed exactly where both sides hold something.
  pub summarize-IsSummary :
      (e : Engine) (claim_id id : Text)
      → Reachable e
      → prefixed (text "claim id") claim_id (text "claim:") ≡ ok id
      → (s : EvidenceSummary) × (summarize e claim_id ≡ ok s) × IsSummary e id s
  unfolding summarize
  summarize-IsSummary e claim_id id r q =
      let g = Reachable-IsGrounded e r in
      let (rs, m, to, from) =
        map_result_total (assess e) (links_of e id)
          (λ l i. let (fwd, _) = links_of-In e id l in assess_total e l g (fwd i).0) in
      (summary_of id rs, rw (q, m) refl, summary_of-IsSummary e id rs from to)
