-- ===== src/Authority.antt =====
-- packages/authority/src/index.ts: authority policies, and `AuthorityEngine`, which ranks candidates
-- by the policy that governs each.
pub mod Governing
pub mod Ranking
pub mod Registering
pub mod Tests
use woyengi.Base.{
  Option, none, some, List, [], ◌∷◌, ◌++◌, Text, text, Bool, true, false, not, ◌&&◌, ◌||◌, Result,
  ok, plain_error, range_error, ◌>>=◌, ◌>>◌, throw_if, map_result, same, length, ◌==◌, keep, find,
  any, first, map, Host, required_text, prefixed, namespaced, normalize_instant, explicit_offset,
  starts_with, Ordering, or_else, text_le, text_lt, if◌then◌else◌,
}
use woyengi.Base.Dict.{Dict, get, has, set, member, values}
use woyengi.Base.Number.{
  Number, number_lt, number_zero, number_one, compare_number, Double, finite, double_lt,
  compare_double,
}
use woyengi.Base.Sort.{sort}
use woyengi.Permissions.Capability.{unique_required, sorted_record}
use woyengi.Permissions.Engine.{note, is_empty, condition_failures}

pub record AuthorityPolicy : Type 0 where
  pub id : Text
  pub principals : List Text
  pub predicate_prefixes : List Text
  pub purposes : List Text
  pub conditions : Dict Text
  pub level : Number
  pub basis : Text
  pub valid_from : Text
  pub expires_at : Text

pub record AuthorityCandidate : Type 0 where
  pub id : Text
  pub principal : Text
  pub confidence : Double

pub record AuthorityTraceItem : Type 0 where
  pub policy_id : Text
  pub matched : Bool
  pub failures : List Text

pub record GrantedAuthority : Type 0 where
  pub level : Number
  pub basis : Text
  pub policy_id : Option Text

pub record AuthorityAssessment : Type 0 where
  pub candidate : AuthorityCandidate
  pub authority : GrantedAuthority
  pub rationale : Text
  pub trace : List AuthorityTraceItem

pub record AuthorityRanking : Type 0 where
  pub selected : Option AuthorityAssessment
  pub assessments : List AuthorityAssessment

-- What `rank` passes to `assess`: the validated question.
pub record Question : Type 0 where
  pub predicate : Text
  pub purpose : Text
  pub context : Dict Text
  pub at : Text

abbrev pub Engine : Type 0
Engine = Dict AuthorityPolicy

pub register : Engine → AuthorityPolicy → Result Engine
register e policy = do
  throw_if (has policy.id e) plain_error (text "authority policy already exists: " ++ policy.id)
  ok (set policy.id policy e)

pub failures_of : AuthorityPolicy → AuthorityCandidate → Question → List Text
failures_of policy candidate q =
    note (not (member candidate.principal policy.principals)) (text "principal-not-authoritative") (
      note (not (any (λ prefix. starts_with q.predicate prefix) policy.predicate_prefixes))
        (text "predicate-out-of-scope")
        (note (not (member q.purpose policy.purposes)) (text "purpose-out-of-scope") (
          note (text_lt q.at policy.valid_from || text_le policy.expires_at q.at)
            (text "outside-time-bound") (condition_failures q.context policy.conditions))))

pub evaluate_policy : AuthorityPolicy → AuthorityCandidate → Question → AuthorityTraceItem
unfolding failures_of
evaluate_policy policy candidate q =
    let failures = failures_of policy candidate q in
    record { policy_id = policy.id; matched = is_empty failures; failures = failures }

-- `policies.find(…)` on each matched item; an item that finds nothing, which the cast rules out, is dropped.
pub policies_of : List AuthorityPolicy → List AuthorityTraceItem → List AuthorityPolicy
policies_of policies [] = []
policies_of policies (item ∷ items) =
    elim (find (λ (p : AuthorityPolicy). same p.id item.policy_id) policies) [
      | none ↦ policies_of policies items
      | some p ↦ p ∷ policies_of policies items
    ]

pub authority_of : Option AuthorityPolicy → GrantedAuthority
authority_of none = record {
  level = number_zero;
  basis = text "no matching authority policy";
  policy_id = none;
}
authority_of (some p) = record { level = p.level; basis = p.basis; policy_id = some p.id }

module _ ⦃h : Host⦄ where
  pub define_authority_policy : AuthorityPolicy → Result AuthorityPolicy
  unfolding unique_required sorted_record
  define_authority_policy input = do
    valid_from ← normalize_instant explicit_offset input.valid_from
    expires_at ← normalize_instant explicit_offset input.expires_at
    throw_if (text_le expires_at valid_from) range_error
        (text "authority policy expiry must follow validFrom")
    id ← prefixed (text "authority policy id") input.id (text "authority-policy:")
    principals ← unique_required (text "authority principals") input.principals
    predicate_prefixes ← unique_required (text "predicate prefixes") input.predicate_prefixes
    purposes ← unique_required (text "authority purposes") input.purposes
    conditions ← sorted_record input.conditions
    basis ← required_text (text "authority basis") input.basis
    ok (record {
      id = id;
      principals = principals;
      predicate_prefixes = predicate_prefixes;
      purposes = purposes;
      conditions = conditions;
      level = input.level;
      basis = basis;
      valid_from = valid_from;
      expires_at = expires_at;
    })

  abbrev pub compare_policies : AuthorityPolicy → AuthorityPolicy → Ordering
  compare_policies left right =
      or_else (compare_number right.level left.level) (h.locale_compare left.id right.id)

  pub rationale_of : Text → Option AuthorityPolicy → Text
  rationale_of candidate none = candidate ++ text " has authority 0 because no policy matched."
  rationale_of candidate (some p) =
      candidate
      ++ text " has authority "
      ++ h.number_to_string p.level
      ++ text " under "
      ++ p.id
      ++ text ": "
      ++ p.basis

  pub matched_policies : List AuthorityPolicy → List AuthorityTraceItem → List AuthorityPolicy
  unfolding policies_of
  matched_policies policies trace =
      sort compare_policies
        (policies_of policies (keep (λ (i : AuthorityTraceItem). i.matched) trace))

  pub assess : List AuthorityPolicy → Question → AuthorityCandidate → Result AuthorityAssessment
  unfolding matched_policies authority_of rationale_of
  assess policies q input = do
    throw_if
        (double_lt input.confidence (finite number_zero)
          || double_lt (finite number_one) input.confidence)
        range_error (text "candidate confidence must be between 0 and 1")
    id ← namespaced (text "candidate id") input.id
    principal ← namespaced (text "candidate principal") input.principal
    let candidate : AuthorityCandidate = record {
      id = id;
      principal = principal;
      confidence = input.confidence;
    } in
        let trace = map (λ p. evaluate_policy p candidate q) policies in
        let governing = first (matched_policies policies trace) in
        ok (record {
          candidate = candidate;
          authority = authority_of governing;
          rationale = rationale_of id governing;
          trace = trace;
        })

  abbrev pub compare_assessments : AuthorityAssessment → AuthorityAssessment → Ordering
  compare_assessments left right =
      or_else (compare_number right.authority.level left.authority.level) (
        or_else (compare_double right.candidate.confidence left.candidate.confidence)
          (h.locale_compare left.candidate.id right.candidate.id))

  unfoldable pub sorted_policies : Engine → List AuthorityPolicy
  sorted_policies e = sort (λ left right. h.locale_compare left.id right.id) (values e)

  pub rank : Engine → Question → List AuthorityCandidate → Result AuthorityRanking
  unfolding sorted_policies
  rank e input candidates = do
    predicate ← namespaced (text "predicate") input.predicate
    purpose ← required_text (text "purpose") input.purpose
    at ← normalize_instant explicit_offset input.at
    assessments ←
        map_result
          (assess (sorted_policies e)
            (record { predicate = predicate; purpose = purpose; context = input.context; at = at }))
          candidates
    let sorted = sort compare_assessments assessments in
        ok (record { selected = first sorted; assessments = sorted })
