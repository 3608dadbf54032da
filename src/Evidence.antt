-- ===== src/Evidence.antt =====
-- packages/evidence/src/index.ts: evidence links, verification outcomes, and `EvidenceEngine`. A
-- method that throws leaves the engine as it was, since it throws before its first change.
pub mod Summarizing
pub mod Summaries
pub mod Tests
use woyengi.Base.{
  ℕ, Option, none, some, List, [], ◌∷◌, ◌++◌, Text, text, Bool, true, false, not, ◌&&◌, ◌||◌,
  Result, ok, raise, plain_error, type_error, range_error, ◌>>=◌, ◌>>◌, throw_if, map_result, same,
  length, ltb, keep, Host, required_text, prefixed, namespaced, normalize_instant, explicit_offset,
  starts_with, Ordering, or_else,
}
use woyengi.Base.Dict.{Dict, get, has, set, member, add, values}
use woyengi.Base.Number.{Number, number_lt, number_zero, number_one, integer}
use woyengi.Base.Sort.{sort}
use woyengi.Core.{EvidenceRecord, Provenance}

pub data Stance : Type 0 where
  supports contradicts : Stance

pub data VerifierKind : Type 0 where
  schema constraint source cross_source temporal authority consistency external human domain :
      VerifierKind

pub data VerificationStatus : Type 0 where
  verified rejected inconclusive : VerificationStatus

pub data Assessment : Type 0 where
  supported contradicted mixed unresolved : Assessment

pub record EvidenceLink : Type 0 where
  pub id : Text
  pub evidence_id : Text
  pub claim_id : Text
  pub stance : Stance
  pub strength : Number
  pub from : Text
  pub provenance : Provenance

pub record VerificationOutcome : Type 0 where
  pub id : Text
  pub subject_id : Text
  pub verifier_id : Text
  pub verifier_kind : VerifierKind
  pub method : Text
  pub status : VerificationStatus
  pub from : Text
  pub provenance : Provenance
  pub details : Text

pub record EvidenceAssessment : Type 0 where
  pub link : EvidenceLink
  pub evidence : EvidenceRecord
  pub verification : List VerificationOutcome

pub record EvidenceSummary : Type 0 where
  pub claim_id : Text
  pub assessment : Assessment
  pub supporting : List EvidenceAssessment
  pub contradicting : List EvidenceAssessment
  pub rationale : Text

pub record Engine : Type 0 where
  pub evidence : Dict EvidenceRecord
  pub links : Dict EvidenceLink
  pub verifications : Dict VerificationOutcome
  pub record_ids : List Text

pub empty : Engine
empty = record { evidence = []; links = []; verifications = []; record_ids = [] }

pub assert_new : Engine → Text → Result (Unit {0})
assert_new e id =
    throw_if (member id e.record_ids) plain_error (text "evidence record already exists: " ++ id)

pub register_evidence : Engine → EvidenceRecord → Result Engine
unfolding assert_new
register_evidence e evidence = do
  assert_new e evidence.id
  ok (record e {
    evidence = set evidence.id evidence e.evidence;
    record_ids = add evidence.id e.record_ids;
  })

pub append_link : Engine → EvidenceLink → Result Engine
unfolding assert_new
append_link e link = do
  assert_new e link.id
  throw_if (not (has link.evidence_id e.evidence)) plain_error
      (text "evidence does not exist: " ++ link.evidence_id)
  ok (record e { links = set link.id link e.links; record_ids = add link.id e.record_ids })

pub append_verification : Engine → VerificationOutcome → Result Engine
unfolding assert_new
append_verification e outcome = do
  assert_new e outcome.id
  throw_if
      (starts_with outcome.subject_id (text "evidence:") && not (has outcome.subject_id e.evidence))
      plain_error (text "verification evidence subject does not exist: " ++ outcome.subject_id)
  ok (record e {
    verifications = set outcome.id outcome e.verifications;
    record_ids = add outcome.id e.record_ids;
  })

abbrev pub is_supports : Stance → Bool
is_supports supports = true
is_supports contradicts = false

-- `supporting.length > 0` and `contradicting.length > 0`
abbrev pub assessment_of : Bool → Bool → Assessment
assessment_of true true = mixed
assessment_of true false = supported
assessment_of false true = contradicted
assessment_of false false = unresolved

assessment_name : Assessment → Text
assessment_name supported = text "supported"
assessment_name contradicted = text "contradicted"
assessment_name mixed = text "mixed"
assessment_name unresolved = text "unresolved"

module _ ⦃h : Host⦄ where
  pub create_evidence_link : EvidenceLink → Result EvidenceLink
  create_evidence_link input = do
    throw_if (number_lt input.strength number_zero || number_lt number_one input.strength)
        range_error (text "evidence strength must be between 0 and 1")
    id ← prefixed (text "evidence link id") input.id (text "evidence-link:")
    evidence_id ← prefixed (text "evidence id") input.evidence_id (text "evidence:")
    claim_id ← prefixed (text "claim id") input.claim_id (text "claim:")
    from ← normalize_instant explicit_offset input.from
    ok (record {
      id = id;
      evidence_id = evidence_id;
      claim_id = claim_id;
      stance = input.stance;
      strength = input.strength;
      from = from;
      provenance = input.provenance;
    })

  pub create_verification_outcome : VerificationOutcome → Result VerificationOutcome
  create_verification_outcome input = do
    id ← prefixed (text "verification id") input.id (text "verification:")
    subject_id ← namespaced (text "verification subject") input.subject_id
    verifier_id ← namespaced (text "verifier id") input.verifier_id
    method ← required_text (text "verification method") input.method
    from ← normalize_instant explicit_offset input.from
    details ← required_text (text "verification details") input.details
    ok (record {
      id = id;
      subject_id = subject_id;
      verifier_id = verifier_id;
      verifier_kind = input.verifier_kind;
      method = method;
      status = input.status;
      from = from;
      provenance = input.provenance;
      details = details;
    })

  abbrev by_time : Text × Text → Text × Text → Ordering
  by_time left right = or_else (h.locale_compare left.0 right.0) (h.locale_compare left.1 right.1)

  -- `compareTransactionRecords`, on the links and on the outcomes.
  abbrev pub compare_links : EvidenceLink → EvidenceLink → Ordering
  compare_links left right = by_time (left.from, left.id) (right.from, right.id)

  abbrev pub compare_outcomes : VerificationOutcome → VerificationOutcome → Ordering
  compare_outcomes left right = by_time (left.from, left.id) (right.from, right.id)

  unfoldable pub outcomes_on : Engine → Text → List VerificationOutcome
  outcomes_on e subject =
      sort compare_outcomes
        (keep (λ outcome. same outcome.subject_id subject) (values e.verifications))

  -- A link without its evidence would make the code read a property of `undefined`.
  assess_with : Engine → EvidenceLink → Option EvidenceRecord → Result EvidenceAssessment
  assess_with e link none =
      raise type_error (text "Cannot read properties of undefined (reading 'id')")
  assess_with e link (some evidence) =
      ok (record { link = link; evidence = evidence; verification = outcomes_on e evidence.id })

  pub assess : Engine → EvidenceLink → Result EvidenceAssessment
  unfolding assess_with
  assess e link = assess_with e link (get link.evidence_id e.evidence)

  pub summary_of : Text → List EvidenceAssessment → EvidenceSummary
  unfolding assessment_name
  summary_of claim_id assessments =
      let supporting = keep (λ a. is_supports a.link.stance) assessments in
      let contradicting = keep (λ a. not (is_supports a.link.stance)) assessments in
      let assessment = assessment_of (ltb 0 (length supporting)) (ltb 0 (length contradicting)) in
      record {
        claim_id = claim_id;
        assessment = assessment;
        supporting = supporting;
        contradicting = contradicting;
        rationale =
            h.number_to_string (integer (length supporting))
            ++ text " supporting and "
            ++ h.number_to_string (integer (length contradicting))
            ++ text " contradicting evidence records retained; assessment is "
            ++ assessment_name assessment
            ++ text ".";
      }

  pub summarize : Engine → Text → Result EvidenceSummary
  unfolding assess summary_of
  summarize e claim_id = do
    id ← prefixed (text "claim id") claim_id (text "claim:")
    assessments ←
        map_result (assess e)
          (sort compare_links (keep (λ link. same link.claim_id id) (values e.links)))
    ok (summary_of id assessments)
