-- ===== src/Work/Registry.antt =====
-- packages/work/src/index.ts: the state of `WorkRegistry`, and the operations but for the changes of an
-- assignment. Everything is checked before it is changed, so a method that throws changes nothing.
use woyengi.Base.{
  ℕ, suc, Option, none, some, List, [], ◌∷◌, ◌++◌, Text, text, Bool, true, false, not, Result, ok,
  raise, plain_error, ◌>>=◌, ◌>>◌, throw_if, same, any, find,
}
use woyengi.Base.Dict.{Dict, get, set, has}
use woyengi.Work.Records.{
  PrincipalKind, human, agent, service, automation, Participant, WorkOutcome, active, WorkInstance,
  WorkEpisode, Activity, Assignment, WorkActivityEntry, WorkOperation,
}
use woyengi.Work.Inputs.{assert_participant}

pub record Registry : Type 0 where
  pub instances : Dict WorkInstance
  pub episodes : Dict WorkEpisode
  pub activities : Dict Activity
  pub assignments : Dict Assignment
  pub streams : Dict (List WorkActivityEntry)
  pub operations : List WorkOperation
  pub operation_ids : List Text
  pub ledger_sequences : List Text
  pub last_ledger_sequence_by_workspace : Dict ℕ

abbrev pub no_work : Registry
no_work = record {
  instances = [];
  episodes = [];
  activities = [];
  assignments = [];
  streams = [];
  operations = [];
  operation_ids = [];
  ledger_sequences = [];
  last_ledger_sequence_by_workspace = [];
}

abbrev pub same_kind : PrincipalKind → PrincipalKind → Bool
same_kind human human = true
same_kind agent agent = true
same_kind service service = true
same_kind automation automation = true
same_kind _ _ = false

unfoldable pub assert_workspace : Text → Text → Text → Result (Unit {0})
assert_workspace actual expected name =
    throw_if (not (same actual expected)) plain_error
      (name ++ text " is outside workspace: " ++ expected)

-- `assertScope`, on the two ids of the value.
unfoldable pub assert_scope : Text → Text → WorkInstance → Text → Result (Unit {0})
unfolding assert_workspace
assert_scope workspace owner instance_ name = do
  assert_workspace workspace instance_.workspace_id name
  throw_if (not (same owner instance_.id)) plain_error
      (name ++ text " belongs to another work instance")

-- `#assertParticipantReference`
abbrev registered : Option Participant → PrincipalKind → Bool
registered none kind = false
registered (some p) kind = same_kind p.kind kind

unfoldable pub assert_participant_reference : WorkInstance → Participant → Result (Unit {0})
assert_participant_reference i p =
    throw_if
      (not (
        registered (find (λ (q : Participant). same q.principal_id p.principal_id) i.participants)
          p.kind))
      plain_error (text "participant is not registered for work instance: " ++ p.principal_id)

-- What a key must hold, or the error.
abbrev pub require : {A : Type 0} → Option A → Text → Result A
require none message = raise plain_error message
require (some a) message = ok a

-- `#advance`: the changed instance, a version later.
abbrev pub advance : WorkInstance → Registry → Registry
advance i r = record r { instances = set i.id (record i { version = suc i.version }) r.instances }

unfoldable pub apply_episode : WorkInstance → WorkEpisode → Registry → Result Registry
apply_episode i e r = do
  throw_if (has e.id r.episodes) plain_error (text "work episode already exists: " ++ e.id)
  assert_participant i.participants e.started_by_principal_id
  assert_scope e.workspace_id e.work_instance_id i (text "work episode")
  ok (
      advance (record i { episode_ids = i.episode_ids ++ e.id ∷ [] })
        (record r { episodes = set e.id e r.episodes }))

abbrev pub episode_of : WorkInstance → Option WorkEpisode → Bool
episode_of i none = false
episode_of i (some e) = same e.work_instance_id i.id

unfoldable pub apply_activity : WorkInstance → Activity → Registry → Result Registry
apply_activity i a r = do
  throw_if (has a.id r.activities) plain_error (text "activity already exists: " ++ a.id)
  assert_participant i.participants a.created_by_principal_id
  assert_scope a.workspace_id a.work_instance_id i (text "activity")
  throw_if (not (episode_of i (get a.work_episode_id r.episodes))) plain_error
      (text "work episode does not belong to work instance: " ++ a.work_episode_id)
  ok (
      advance (record i { activity_ids = i.activity_ids ++ a.id ∷ [] })
        (record r { activities = set a.id a r.activities }))

-- The activity of an assignment, which has to be the instance's.
abbrev pub activity_of : WorkInstance → Option Activity → Text → Result Activity
activity_of i none message = raise plain_error message
activity_of i (some a) message = elim (same a.work_instance_id i.id) [
  | true ↦ ok a
  | false ↦ raise plain_error message
]

unfoldable pub apply_assignment : WorkInstance → Assignment → Registry → Result Registry
apply_assignment i a r = do
  throw_if (has a.id r.assignments) plain_error (text "assignment already exists: " ++ a.id)
  assert_scope a.workspace_id a.work_instance_id i (text "assignment")
  assert_participant_reference i a.assignee
  activity ←
      activity_of i (get a.activity_id r.activities)
        (text "activity does not belong to work instance: " ++ a.activity_id)
  ok (
      advance (record i { assignment_ids = i.assignment_ids ++ a.id ∷ [] })
        (record r {
          activities = set activity.id (record activity { status = active }) r.activities;
          assignments = set a.id a r.assignments;
        }))

unfoldable pub apply_outcome : WorkInstance → WorkOutcome → Registry → Result Registry
apply_outcome i o r = do
  throw_if (any (λ (x : WorkOutcome). same x.id o.id) i.outcomes) plain_error
      (text "work outcome already exists: " ++ o.id)
  assert_participant i.participants o.recorded_by_principal_id
  ok (advance (record i { outcomes = i.outcomes ++ o ∷ [] }) r)
