-- ===== src/Evidence/Summarizing.antt =====
-- packages/evidence/src/index.ts: what `summarize` retains.
use woyengi.Base.{
  some, Text, text, Bool, not, ok, ◌≡◌, refl, arith, In, In_keep, In-keep, inl, inr, Host, ◌↔◌,
  same, same-eq, throw_if->>-eq-ok, text_discrete, Option-cases, starts_with, ◌&&◌,
}
use woyengi.Base.Dict.{get, set, has, member, values, get-set, In_values-set}
use woyengi.Base.Sort.{In-sort, In_sort}
use woyengi.Core.{EvidenceRecord}
use woyengi.Evidence.{
  Engine, EvidenceLink, EvidenceAssessment, VerificationOutcome, is_supports, register_evidence,
  append_link, append_verification, assert_new, empty, assess, assess_with, outcomes_on,
}

-- The changes of an engine.
pub data Step : Engine → Engine → Type 0 where
  registered : (e e' : Engine) (r : EvidenceRecord) → register_evidence e r ≡ ok e' → Step e e'
  linked : (e e' : Engine) (l : EvidenceLink) → append_link e l ≡ ok e' → Step e e'
  checked : (e e' : Engine) (o : VerificationOutcome) → append_verification e o ≡ ok e' → Step e e'

pub data Reachable : Engine → Type 0 where
  started : Reachable empty
  stepped : (e e' : Engine) → Reachable e → Step e e' → Reachable e'

-- The evidence of every link is registered.
pub record IsGrounded (e : Engine) : Type 0 where
  pub registered_for :
      (l : EvidenceLink)
      → In l (values e.links)
      → (r : EvidenceRecord) × (get l.evidence_id e.evidence ≡ some r)

Step-IsGrounded : (e e' : Engine) → IsGrounded e → Step e e' → IsGrounded e'
unfolding register_evidence append_link append_verification assert_new
Step-IsGrounded e e' g (registered _ _ r h) =
    let (_, k) = throw_if->>-eq-ok (member r.id e.record_ids) _ _ _ h in
    let el : e'.links ≡ e.links = cc in
    let ee : e'.evidence ≡ set r.id r e.evidence = cc in
    record {
      registered_for = λ l i.
          let (x, q) = g.registered_for l (rw el at i) in
          elim (text_discrete r.id l.evidence_id) [
            | yes p ↦ (r, rw ee (ground (arith, get-set r.id l.evidence_id r e.evidence)))
            | no p ↦ (x, rw ee (ground (arith, get-set r.id l.evidence_id r e.evidence)))
          ];
    }
Step-IsGrounded e e' g (linked _ _ l h) =
    let (_, k) = throw_if->>-eq-ok (member l.id e.record_ids) _ _ _ h in
    let (known, k') = throw_if->>-eq-ok (not (has l.evidence_id e.evidence)) _ _ _ k in
    let el : e'.links ≡ set l.id l e.links = cc in
    let ee : e'.evidence ≡ e.evidence = cc in
    record {
      registered_for = λ x i. elim (In_values-set x l.id l e.links (rw el at i)) [
        | inl p ↦ elim (Option-cases (get l.evidence_id e.evidence)) [
          | inl q ↦ absurd (ground arith)
          | inr (r, q) ↦ (r, rw (p, ee) q)
        ]
        | inr j ↦ let (r, q) = g.registered_for x j in (r, rw ee q)
      ];
    }
Step-IsGrounded e e' g (checked _ _ o h) =
    let (_, k) = throw_if->>-eq-ok (member o.id e.record_ids) _ _ _ h in
    let (_, k') =
      throw_if->>-eq-ok
        (starts_with o.subject_id (text "evidence:") && not (has o.subject_id e.evidence)) _ _ _
        k in
    let el : e'.links ≡ e.links = cc in
    let ee : e'.evidence ≡ e.evidence = cc in
    record { registered_for = λ l i. let (r, q) = g.registered_for l (rw el at i) in (r, rw ee q) }

pub Reachable-IsGrounded : (e : Engine) → Reachable e → IsGrounded e
unfolding empty
Reachable-IsGrounded e started = record { registered_for = λ l i. absurd i }
Reachable-IsGrounded e (stepped d _ r s) = Step-IsGrounded d e (Reachable-IsGrounded d r) s

module _ ⦃h : Host⦄ where
  -- An assessment of a stored link of this claim and stance: with the evidence that the link names
  -- and the stored outcomes on that evidence.
  pub record IsAssessment (e : Engine) (id : Text) (supporting : Bool) (a : EvidenceAssessment)
      : Type 0 where
    pub held : In a.link (values e.links)
    pub about : a.link.claim_id ≡ id
    pub stance : is_supports a.link.stance ≡ supporting
    pub evidence : get a.link.evidence_id e.evidence ≡ some a.evidence
    pub checks :
        (o : VerificationOutcome)
        → In o a.verification ↔ (In o (values e.verifications) × (o.subject_id ≡ a.evidence.id))

  pub outcomes_on-In :
      (e : Engine) (subject : Text) (o : VerificationOutcome)
      → In o (outcomes_on e subject) ↔ (In o (values e.verifications) × (o.subject_id ≡ subject))
  unfolding outcomes_on
  outcomes_on-In e subject o = (
    (λ i.
        let (j, q) =
          In-keep (λ (x : VerificationOutcome). same x.subject_id subject) o _ (In-sort _ o _ i) in
        (j, same-eq o.subject_id subject q)),
    (λ (j, q).
        In_sort _ o _
          (In_keep (λ (x : VerificationOutcome). same x.subject_id subject) o _ j (ground arith))),
  )

  pub assess-eq-ok :
      (e : Engine) (l : EvidenceLink) (a : EvidenceAssessment)
      → assess e l ≡ ok a
      → (a.link ≡ l)
        × (get l.evidence_id e.evidence ≡ some a.evidence)
        × (a.verification ≡ outcomes_on e a.evidence.id)
  unfolding assess assess_with
  assess-eq-ok e l a q = elim (Option-cases (get l.evidence_id e.evidence)) [
    | inl n ↦ ground arith
    | inr (r, n) ↦
        let q' = rw n at q in
        let ea : a ≡ record { link = l; evidence = r; verification = outcomes_on e r.id } = cc in
        rw ea (refl, n, refl)
  ]

  pub assess_total :
      (e : Engine) (l : EvidenceLink)
      → IsGrounded e
      → In l (values e.links)
      → (a : EvidenceAssessment) × (assess e l ≡ ok a)
  unfolding assess assess_with
  assess_total e l g i =
      let (r, q) = g.registered_for l i in
      (record { link = l; evidence = r; verification = outcomes_on e r.id }, rw q refl)
