-- ===== src/State/Projection.antt =====
-- packages/state/src/index.ts: `history`, `replay`, and the bitemporal `projectAt`.
pub mod Ranking
pub mod Effective
pub mod Priority
pub mod Selecting
pub mod Stability
pub mod Tests
use woyengi.Base.{
  ℕ, Option, none, some, List, [], ◌∷◌, ◌++◌, map, Text, text, Bool, true, false, not, ◌&&◌, Result,
  ok, plain_error, ◌>>=◌, ◌>>◌, throw_if, same, text_le, text_lt, length, keep, last, first,
  or_default, is_some, Ordering, or_else, Host, normalize_instant, explicit_offset, compare,
  if◌then◌else◌,
}
use woyengi.Base.Dict.{Dict, get, set, has, member, add, values}
use woyengi.Base.Number.{compare_number, compare_double}
use woyengi.Base.Sort.{sort}
use mathlib.Core.List.{flatten}
use woyengi.Core.{
  ClaimRecord, LifecycleTransitionRecord, LifecycleStatus, verified, provisional, CanonicalRecord,
  a_claim, a_transition, TimeInterval,
}
use woyengi.State.CanonicalValue.{canonical_value}
use woyengi.State.Ledger.{ClaimLedger, empty, append_all, transitions_of, record_from, record_id}

pub record ClaimHistoryFilter : Type 0 where
  pub subject : Option Text
  pub predicate : Option Text

pub record StateProjectionQuery : Type 0 where
  pub subject : Text
  pub predicate : Text
  pub valid_at : Text
  pub recorded_at : Text

pub record ProjectedClaim : Type 0 where
  pub claim : ClaimRecord
  pub effective_lifecycle : LifecycleStatus

pub data Stage : Type 0 where
  candidate_discovery transaction_time_stage valid_time_stage lifecycle_stage selection : Stage

pub record ProjectionTraceStep : Type 0 where
  pub stage : Stage
  pub input_count : ℕ
  pub output_count : ℕ
  pub detail : Text

pub record StateProjection : Type 0 where
  pub subject : Text
  pub predicate : Text
  pub valid_at : Text
  pub recorded_at : Text
  pub selected : Option ProjectedClaim
  pub candidates : List ProjectedClaim
  pub conflicts : List ProjectedClaim
  pub trace : List ProjectionTraceStep

unfoldable pub contains : TimeInterval → Text → Bool
contains interval instant =
    text_le interval.from instant && elim interval.to [ none ↦ true | some to ↦ text_lt instant to ]

abbrev pub matches : Option Text → Text → Bool
matches none value = true
matches (some wanted) value = same value wanted

abbrev pub status_of : Option LifecycleTransitionRecord → Option LifecycleStatus
status_of none = none
status_of (some t) = some t.status

pub lifecycle_rank : LifecycleStatus → ℕ
lifecycle_rank verified = 2
lifecycle_rank provisional = 1
lifecycle_rank _ = 0

pub governs : LifecycleStatus → Bool
governs verified = true
governs provisional = true
governs _ = false

module _ ⦃h : Host⦄ where
  pub compare_transaction_order : ClaimRecord → ClaimRecord → Ordering
  compare_transaction_order left right =
      or_else (h.locale_compare left.transaction_time.from right.transaction_time.from)
        (h.locale_compare left.id right.id)

  pub compare_lifecycle_transaction_order :
      LifecycleTransitionRecord → LifecycleTransitionRecord → Ordering
  compare_lifecycle_transaction_order left right =
      or_else (h.locale_compare left.transaction_time.from right.transaction_time.from)
        (h.locale_compare left.id right.id)

  pub compare_canonical_transaction_order : CanonicalRecord → CanonicalRecord → Ordering
  compare_canonical_transaction_order left right =
      or_else (h.locale_compare (record_from left) (record_from right))
        (h.locale_compare (record_id left) (record_id right))

  pub compare_projection_priority : ProjectedClaim → ProjectedClaim → Ordering
  unfolding lifecycle_rank
  compare_projection_priority left right =
      or_else
        (compare (lifecycle_rank right.effective_lifecycle)
          (lifecycle_rank left.effective_lifecycle))
        (or_else (compare_number right.claim.authority.level left.claim.authority.level) (
          or_else (h.locale_compare right.claim.valid_time.from left.claim.valid_time.from) (
            or_else
              (h.locale_compare right.claim.transaction_time.from left.claim.transaction_time.from)
              (or_else (compare_double right.claim.confidence left.claim.confidence)
                (h.locale_compare left.claim.id right.claim.id)))))

  pub history : ClaimLedger → ClaimHistoryFilter → List ClaimRecord
  history l filter = sort compare_transaction_order (
      keep (λ claim. matches filter.predicate claim.predicate)
        (keep (λ claim. matches filter.subject claim.subject) (values l.claims_by_id)))

  pub lifecycle_history : ClaimLedger → Text → List LifecycleTransitionRecord
  lifecycle_history l target = sort compare_lifecycle_transaction_order (transitions_of l target)

  pub canonical_records : ClaimLedger → List CanonicalRecord
  canonical_records l = sort compare_canonical_transaction_order (
      map a_claim (values l.claims_by_id)
      ++ map a_transition (flatten (values l.lifecycle_by_target)))

  until_instant : Option Text → Result (Option Text)
  until_instant none = ok none
  until_instant (some t) = do u ← normalize_instant explicit_offset t; ok (some u)

  abbrev not_later : Option Text → CanonicalRecord → Bool
  not_later none r = true
  not_later (some u) r = text_le (record_from r) u

  pub replay : List CanonicalRecord → Option Text → Result ClaimLedger
  unfolding until_instant
  replay records until = do
    u ← until_instant until
    append_all empty (sort compare_canonical_transaction_order (keep (not_later u) records))

  pub effective_lifecycle : ClaimLedger → ClaimRecord → Text → LifecycleStatus
  effective_lifecycle l claim recorded_at =
      or_default
        (status_of (
          last (
            keep (λ t. text_le t.transaction_time.from recorded_at)
              (lifecycle_history l claim.id))))
        claim.lifecycle

  pub known_claims : ClaimLedger → StateProjectionQuery → Text → List ClaimRecord
  known_claims l query recorded_at =
      keep (λ claim. contains claim.transaction_time recorded_at)
        (history l (record { subject = some query.subject; predicate = some query.predicate }))

  pub valid_claims : ClaimLedger → StateProjectionQuery → Text → Text → List ClaimRecord
  unfolding known_claims
  valid_claims l query valid_at recorded_at =
      keep (λ claim. contains claim.valid_time valid_at) (known_claims l query recorded_at)

  pub governing_claims : ClaimLedger → StateProjectionQuery → Text → Text → List ProjectedClaim
  unfolding valid_claims
  governing_claims l query valid_at recorded_at = sort compare_projection_priority (
      keep (λ candidate. governs candidate.effective_lifecycle)
        (map
          (λ claim. record {
            claim = claim;
            effective_lifecycle = effective_lifecycle l claim recorded_at;
          })
          (valid_claims l query valid_at recorded_at)))

  -- The candidates with another id and another canonical value than the selected one.
  conflicts_with : Option ProjectedClaim → List ProjectedClaim → List ProjectedClaim
  conflicts_with none governing = []
  conflicts_with (some selected) governing =
      keep
        (λ candidate.
          not (same candidate.claim.id selected.claim.id)
          && not (
              same (canonical_value candidate.claim.object_value)
                (canonical_value selected.claim.object_value)))
        governing

  abbrev trace : Stage → ℕ → ℕ → Text → ProjectionTraceStep
  trace stage input_count output_count detail = record {
    stage = stage;
    input_count = input_count;
    output_count = output_count;
    detail = detail;
  }

  -- What `projectAt` returns once the two instants are read.
  pub projection_of : ClaimLedger → StateProjectionQuery → Text → Text → StateProjection
  unfolding governing_claims conflicts_with
  projection_of l query valid_at recorded_at =
      let discovered =
        history l (record { subject = some query.subject; predicate = some query.predicate }) in
      let known = known_claims l query recorded_at in
      let valid = valid_claims l query valid_at recorded_at in
      let governing = governing_claims l query valid_at recorded_at in
      let selected = first governing in
      record {
        subject = query.subject;
        predicate = query.predicate;
        valid_at = valid_at;
        recorded_at = recorded_at;
        selected = selected;
        candidates = governing;
        conflicts = conflicts_with selected governing;
        trace =
            trace candidate_discovery (length discovered) (length discovered)
              (text "matched subject and predicate")
            ∷ trace transaction_time_stage (length discovered) (length known)
                (text "removed claims not yet recorded")
            ∷ trace valid_time_stage (length known) (length valid)
                (text "removed claims not valid in the world")
            ∷ trace lifecycle_stage (length valid) (length governing)
                (text "applied lifecycle transitions and removed non-governing states")
            ∷ trace selection (length governing) (if is_some selected then 1 else 0) (
                text
                  "ranked lifecycle, authority, valid time, transaction time, confidence, then ID")
            ∷ [];
      }

  pub project_at : ClaimLedger → StateProjectionQuery → Result StateProjection
  unfolding projection_of
  project_at l query = do
    valid_at ← normalize_instant explicit_offset query.valid_at
    recorded_at ← normalize_instant explicit_offset query.recorded_at
    ok (projection_of l query valid_at recorded_at)
