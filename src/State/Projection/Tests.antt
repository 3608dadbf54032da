-- ===== src/State/Projection/Tests.antt =====
-- Runs of the claim ledger, and the theorems at concrete ledgers.
use woyengi.Base.{
  true, false, Option, none, some, List, [], ◌∷◌, Text, text, text_discrete, Result, ok, raise, ◌≡◌,
  refl, normalize_instant, keep, compare_units, plain_error, ◌++◌, last,
}
use woyengi.Base.Dict.{get, set, member, add}
use woyengi.Base.Number.{finite, pos}
use woyengi.Base.Sort.{sort, insert, insert_all}
use woyengi.Core.{
  ClaimRecord, LifecycleTransitionRecord, LifecycleStatus, verified, provisional, retracted,
  a_claim, a_transition, string, CanonicalRecord,
}
use mathlib.Core.List.{flatten}
use woyengi.State.Ledger.{
  ClaimLedger, empty, append, append_lifecycle_transition, append_record, append_all,
}
use woyengi.State.CanonicalValue.{canonical_value}
use woyengi.State.Projection.{
  StateProjection, StateProjectionQuery, project_at, projection_of, canonical_records, replay,
  compare_canonical_transaction_order, compare_projection_priority, compare_transaction_order,
  compare_lifecycle_transaction_order, effective_lifecycle, history, lifecycle_history, contains,
  governs,
}
use woyengi.State.Projection.Stability.{project_at-append_later}
use woyengi.Samples.{plain_host, no_provenance, some_authority, value_or}

abbrev claim : Text → Text → Text → LifecycleStatus → ClaimRecord
claim id from value status = record {
  id = id;
  subject = text "entity:e";
  predicate = text "p";
  object_value = string value;
  valid_time = record { from = text "0Z"; to = none };
  transaction_time = record { from = from; to = none };
  observation_ids = [];
  evidence_ids = [];
  provenance = no_provenance;
  authority = some_authority;
  confidence = finite (pos 1);
  lifecycle = status;
}

abbrev retraction : Text → LifecycleTransitionRecord
retraction from = record {
  id = text "t1";
  target_id = text "c1";
  status = retracted;
  reason = text "r";
  transaction_time = record { from = from; to = none };
  provenance = no_provenance;
  authority = some_authority;
}

abbrev early : List CanonicalRecord
early =
    a_claim (claim (text "c1") (text "1Z") (text "x") verified)
    ∷ a_claim (claim (text "c2") (text "2Z") (text "y") provisional)
    ∷ []

abbrev late : List CanonicalRecord
late =
    a_transition (retraction (text "5Z"))
    ∷ a_claim (claim (text "c3") (text "6Z") (text "z") verified)
    ∷ []

abbrev before : ClaimLedger
before = value_or empty (append_all empty early)

abbrev after : ClaimLedger
after = value_or empty (append_all before late)

abbrev query_at : Text → StateProjectionQuery
query_at t = record {
  subject = text "entity:e";
  predicate = text "p";
  valid_at = text "3Z";
  recorded_at = t;
}

abbrev selected_id : Result StateProjection → Option Text
selected_id (raise c m) = none
selected_id (ok p) = elim p.selected [ none ↦ none | some c ↦ some c.claim.id ]

-- The projection before and after a retraction, and a transition that is older than its claim:
-- the ledger takes it, and replaying the ledger's own records throws.
runs :
    (selected_id (project_at after (query_at (text "4Z"))) ≡ some (text "c1"))
    × (selected_id (project_at after (query_at (text "7Z"))) ≡ some (text "c3"))
    × (replay
          (canonical_records (
            value_or empty
              (append_all empty (early ++ a_transition (retraction (text "0Z")) ∷ []))))
          none
        ≡ raise plain_error (text "lifecycle target does not exist: " ++ text "c1"))
unfolding project_at append_all append_record append append_lifecycle_transition empty add member
    get set text text_discrete keep sort compare_units normalize_instant canonical_records replay
    compare_canonical_transaction_order canonical_value compare_projection_priority
    compare_transaction_order compare_lifecycle_transaction_order effective_lifecycle history
    lifecycle_history contains last governs flatten
runs = (refl, refl, refl)

project_at-append_later_example :
    ((projection_of after (query_at (text "4Z")) (text "3Z") (text "4Z")).selected
      ≡ (projection_of before (query_at (text "4Z")) (text "3Z") (text "4Z")).selected)
    × ((projection_of after (query_at (text "4Z")) (text "3Z") (text "4Z")).candidates
        ≡ (projection_of before (query_at (text "4Z")) (text "3Z") (text "4Z")).candidates)
    × ((projection_of after (query_at (text "4Z")) (text "3Z") (text "4Z")).conflicts
        ≡ (projection_of before (query_at (text "4Z")) (text "3Z") (text "4Z")).conflicts)
unfolding append_all append_record append append_lifecycle_transition empty add member get set text
    text_discrete normalize_instant project_at compare_units
project_at-append_later_example =
    project_at-append_later early late before after refl refl (query_at (text "4Z")) (text "3Z")
      (text "4Z") refl refl (refl, (refl, tt))
      (projection_of before (query_at (text "4Z")) (text "3Z") (text "4Z"))
      (projection_of after (query_at (text "4Z")) (text "3Z") (text "4Z")) refl refl

statuses : (governs verified ≡ true) × (governs retracted ≡ false)
unfolding governs
statuses = (refl, refl)

-- The canonical records are the claims and transitions by transaction time.
lists : canonical_records after ≡ early ++ late
unfolding canonical_records append_all append_record append append_lifecycle_transition empty add
    member get set text text_discrete sort compare_canonical_transaction_order
    compare_lifecycle_transaction_order compare_units flatten insert insert_all
lists = refl
