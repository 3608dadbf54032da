-- ===== src/Authority/Registering.antt =====
-- packages/authority/src/index.ts: engines that `register` built, and what `rank` returns on them.
use woyengi.Base.{
  some, List, [], text, ok, ◌≡◌, refl, sym, arith, In, inl, inr, first, Host, IsConsistent, ◌∙◌, ap,
  throw_if->>-eq-ok, namespaced, required_text, normalize_instant, explicit_offset, ◌≢◌,
}
use woyengi.Base.Dict.{get, set, has, values, get-set, get-set_self, In_values-set}
use woyengi.Base.Number.{nan}
use woyengi.Base.Ordered.{sort-Sorted_agree}
use woyengi.Base.Mapping.{map_result_total}
use woyengi.Base.Sort.{sort, In-sort, In_sort, Sorted}
use woyengi.Authority.{
  AuthorityPolicy, AuthorityCandidate, AuthorityAssessment, AuthorityRanking, Question, Engine,
  register, assess, rank, sorted_policies, compare_assessments,
}
use woyengi.Authority.Ranking.{
  IsGoverned, IsKeyed, IsValid, assess-IsGoverned, compare_numeric, compare_numeric-IsComparator,
  compare_assessments-numeric,
}

-- The engines that `register` builds.
pub data Built : Engine → Type 0 where
  new : Built []
  registered : (e e' : Engine) (p : AuthorityPolicy) → Built e → register e p ≡ ok e' → Built e'

Built-own : (e : Engine) → Built e → (p : AuthorityPolicy) → In p (values e) → get p.id e ≡ some p
unfolding register
Built-own e new p i = absurd i
Built-own e (registered d _ x b h) p i =
    let (absent, k) = throw_if->>-eq-ok (has x.id d) _ _ _ h in
    let q : e ≡ set x.id x d = cc in
    elim (In_values-set p x.id x d (rw q at i)) [
      | inl r ↦ rw (q, r) (get-set_self x.id x d)
      | inr j ↦ let own = Built-own d b p j in rw q (ground (arith, get-set x.id p.id x d, own))
    ]

module _ ⦃h : Host⦄ where
  -- The question that `rank` asks, normalised.
  pub record IsNormal (input q : Question) : Type 0 where
    pub predicate : namespaced (text "predicate") input.predicate ≡ ok q.predicate
    pub purpose : required_text (text "purpose") input.purpose ≡ ok q.purpose
    pub at : normalize_instant explicit_offset input.at ≡ ok q.at
    pub context : q.context ≡ input.context

module _ ⦃h : Host⦄ (consistent : IsConsistent h) where
  sorted_policies-IsKeyed : (e : Engine) → Built e → IsKeyed (sorted_policies e)
  unfolding sorted_policies
  sorted_policies-IsKeyed e b p p' i i' q =
      let own = Built-own e b p (In-sort _ p (values e) i) in
      let own' = Built-own e b p' (In-sort _ p' (values e) i') in
      let both : some p ≡ some p' = sym own ∙ ap (λ k. get k e) q ∙ own' in cc

  -- On an engine that `register` built, a valid question about valid candidates, whose confidence
  -- is a number from 0 to 1, is answered: the assessments are sorted by authority, then confidence, then id, and the first is selected; each
  -- candidate is assessed; and each assessment carries no authority if no policy covers its
  -- candidate, and else that of a covering policy of the highest level.
  pub rank_lem :
      (e : Engine) (input q : Question) (candidates : List AuthorityCandidate)
      → Built e
      → IsNormal input q
      → ((c : AuthorityCandidate) → In c candidates → (v : AuthorityCandidate) × IsValid c v)
      → (r : AuthorityRanking) × (rank e input candidates ≡ ok r)
        × Sorted compare_assessments r.assessments
        × (r.selected ≡ first r.assessments)
        × ((c : AuthorityCandidate)
            → In c candidates
            → (a : AuthorityAssessment) × In a r.assessments × IsValid c a.candidate)
        × ((a : AuthorityAssessment)
            → In a r.assessments
            → IsGoverned (sorted_policies e) a.candidate q a.authority)
  unfolding rank
  rank_lem e input q candidates b n valid =
      let ps = sorted_policies e in
      let keyed = sorted_policies-IsKeyed e b in
      let (found, m, to, from) = map_result_total (assess ps q) candidates (λ c i.
        let (v, w) = valid c i in
        let (a, k, _, _) = assess-IsGoverned consistent ps q c v keyed w in (a, k)) in
      let numeric : (a : AuthorityAssessment) → In a found → a.candidate.confidence ≢ nan = λ a i n.
        let (c, j, k) = from a i in
        let (v, w) = valid c j in
        let (a', k', ev, g) = assess-IsGoverned consistent ps q c v keyed w in
        let ea : a ≡ a' = cc in
        let own : v.confidence ≡ nan =
          ap (λ (x : AuthorityCandidate). x.confidence)
            (sym ev ∙ ap (λ (x : AuthorityAssessment). x.candidate) (sym ea))
          ∙ n in
        w.number (sym w.confidence ∙ own) in
      (
        record {
          selected = first (sort compare_assessments found);
          assessments = sort compare_assessments found;
        },
        rw (n.predicate, n.purpose, n.at, ← n.context, m) refl,
        sort-Sorted_agree compare_assessments compare_numeric
            (compare_numeric-IsComparator consistent) found
            (λ a b i j. compare_assessments-numeric a b (numeric a i) (numeric b j)),
        refl,
        (λ c i.
            let (a, k, j) = to c i in
            let (v, w) = valid c i in
            let (a', k', ev, g) = assess-IsGoverned consistent ps q c v keyed w in
            let ea : a ≡ a' = cc in (a, In_sort compare_assessments a found j, rw (ea, ev) w)),
        (λ a i.
            let (c, j, k) = from a (In-sort compare_assessments a found i) in
            let (v, w) = valid c j in
            let (a', k', ev, g) = assess-IsGoverned consistent ps q c v keyed w in
            let ea : a ≡ a' = cc in rw (ea, ev) g),
      )
