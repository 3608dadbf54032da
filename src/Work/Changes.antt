-- ===== src/Work/Changes.antt =====
-- packages/work/src/index.ts: `#applyAssignmentChange`.
use woyengi.Base.{
  Option, none, some, [], ◌∷◌, ◌++◌, Text, text, Bool, true, false, not, ◌&&◌, Result, ok, raise,
  plain_error, type_error, ◌>>=◌, ◌>>◌, throw_if, same, if◌then◌else◌,
}
use woyengi.Base.Dict.{get, set}
use woyengi.Work.Records.{
  Participant, Context, WorkStatus, active, suspended, WorkInstance, Activity, ChangeKind,
  handed_off, taken_over, given_back, suspending, resuming, changed, AssignmentTransition,
  Assignment, AssignmentChange, WorkOperation,
}
use woyengi.Work.Registry.{Registry, advance, assert_scope, assert_participant_reference, require}

-- `mergeContext`: the keys of the update replace or follow those that are there.
unfoldable pub merge_context : Context → Context → Context
merge_context current_ [] = current_
merge_context current_ ((k, v) ∷ update) = merge_context (set k v current_) update

abbrev pub is_taken_over : ChangeKind → Bool
is_taken_over taken_over = true
is_taken_over _ = false

abbrev pub is_active : WorkStatus → Bool
is_active active = true
is_active _ = false

abbrev pub is_suspended : WorkStatus → Bool
is_suspended suspended = true
is_suspended _ = false

abbrev change_name : ChangeKind → Text
change_name handed_off = text "activity.handed-off"
change_name taken_over = text "activity.taken-over"
change_name given_back = text "activity.given-back"
change_name suspending = text "activity.suspended"
change_name resuming = text "activity.resumed"

-- The assignee, the previous one and the status after a change.
pub record Holding : Type 0 where
  pub assignee : Participant
  pub previous : Option Participant
  pub status : WorkStatus

-- A hand-off or a take-over to a participant.
unfoldable pub hold_to : WorkInstance → Assignment → AssignmentChange → Result Holding
hold_to i a c = do
  to ← require c.to (change_name c.kind ++ text " requires a target participant")
  assert_participant_reference i to
  ok (record { assignee = to; previous = some a.assignee; status = active })

unfoldable pub hold : WorkInstance → Assignment → AssignmentChange → ChangeKind → Result Holding
unfolding hold_to
hold i a c handed_off = hold_to i a c
hold i a c taken_over = hold_to i a c
hold i a c given_back = do
  previous ← require a.previous_assignee (text "assignment has no previous assignee")
  ok (record { assignee = previous; previous = some a.assignee; status = active })
hold i a c suspending = do
  throw_if (not (is_active a.status)) plain_error (text "assignment is already suspended")
  ok (record { assignee = a.assignee; previous = a.previous_assignee; status = suspended })
hold i a c resuming = do
  throw_if (not (is_suspended a.status)) plain_error (text "assignment is not suspended")
  ok (record { assignee = a.assignee; previous = a.previous_assignee; status = active })

abbrev transition_of :
    WorkOperation → Assignment → AssignmentChange → Holding → AssignmentTransition
transition_of op a c held = record {
  kind = changed c.kind;
  actor_principal_id = op.actor_principal_id;
  authorization_reference = c.authorization_reference;
  from = if same a.assignee.principal_id held.assignee.principal_id then none else some a.assignee;
  to = held.assignee;
  context = c.context;
  transaction_time = op.from;
}

-- The activity is read without a test: an assignment names one that is there.
abbrev pub found_activity : Option Activity → Result Activity
found_activity none = raise type_error (text "Cannot read properties of undefined (reading 'id')")
found_activity (some x) = ok x

unfoldable pub apply_assignment_change :
    WorkInstance → WorkOperation → AssignmentChange → Registry → Result Registry
unfolding hold merge_context
apply_assignment_change i op c r = do
  a ←
      require (get c.assignment_id r.assignments)
        (text "assignment does not exist: " ++ c.assignment_id)
  assert_scope a.workspace_id a.work_instance_id i (text "assignment")
  throw_if (not (is_taken_over c.kind) && not (same a.assignee.principal_id op.actor_principal_id))
      plain_error (text "only the current assignee can " ++ change_name c.kind)
  held ← hold i a c c.kind
  activity ← found_activity (get a.activity_id r.activities)
  ok (
      advance i (record r {
        assignments =
            set a.id
              (record a {
                assignee = held.assignee;
                previous_assignee = held.previous;
                status = held.status;
                context = merge_context a.context c.context;
                transitions = a.transitions ++ transition_of op a c held ∷ [];
              })
              r.assignments;
        activities =
            set activity.id
              (record activity { status = if is_suspended held.status then suspended else active })
              r.activities;
      }))
