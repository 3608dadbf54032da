-- ===== src/State/Ledger.antt =====
-- packages/state/src/index.ts: `ClaimLedger`. A method that throws leaves the ledger as it was,
-- since it throws before its first change.
use woyengi.Base.{
  List, [], ◌∷◌, ◌++◌, Text, text, not, Result, ok, plain_error, ◌>>=◌, ◌>>◌, throw_if, or_default,
}
use woyengi.Base.Dict.{Dict, get, set, has, member, add}
use woyengi.Core.{ClaimRecord, LifecycleTransitionRecord, CanonicalRecord, a_claim, a_transition}

pub record ClaimLedger : Type 0 where
  pub claims_by_id : Dict ClaimRecord
  pub lifecycle_by_target : Dict (List LifecycleTransitionRecord)
  pub record_ids : List Text

unfoldable pub empty : ClaimLedger
empty = record { claims_by_id = []; lifecycle_by_target = []; record_ids = [] }

abbrev assert_new_record_id : ClaimLedger → Text → Result (Unit {0})
assert_new_record_id l id =
    throw_if (member id l.record_ids) plain_error (text "record already exists: " ++ id)

unfoldable pub append : ClaimLedger → ClaimRecord → Result ClaimLedger
append l claim = do
  assert_new_record_id l claim.id
  ok (record l {
    claims_by_id = set claim.id claim l.claims_by_id;
    record_ids = add claim.id l.record_ids;
  })

abbrev pub transitions_of : ClaimLedger → Text → List LifecycleTransitionRecord
transitions_of l target = or_default (get target l.lifecycle_by_target) []

unfoldable pub append_lifecycle_transition :
    ClaimLedger → LifecycleTransitionRecord → Result ClaimLedger
append_lifecycle_transition l t = do
  assert_new_record_id l t.id
  throw_if (not (has t.target_id l.claims_by_id)) plain_error
      (text "lifecycle target does not exist: " ++ t.target_id)
  ok (record l {
    lifecycle_by_target =
        set t.target_id (transitions_of l t.target_id ++ t ∷ []) l.lifecycle_by_target;
    record_ids = add t.id l.record_ids;
  })

unfoldable pub append_record : ClaimLedger → CanonicalRecord → Result ClaimLedger
append_record l (a_claim c) = append l c
append_record l (a_transition t) = append_lifecycle_transition l t

unfoldable pub append_all : ClaimLedger → List CanonicalRecord → Result ClaimLedger
append_all l [] = ok l
append_all l (r ∷ rs) = do l' ← append_record l r; append_all l' rs

abbrev pub record_from : CanonicalRecord → Text
record_from (a_claim c) = c.transaction_time.from
record_from (a_transition t) = t.transaction_time.from

abbrev pub record_id : CanonicalRecord → Text
record_id (a_claim c) = c.id
record_id (a_transition t) = t.id
