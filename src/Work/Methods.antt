-- ===== src/Work/Methods.antt =====
-- packages/work/src/index.ts: the methods of `WorkRegistry`. An input holds the record that it asks
-- for, of which the method reads the fields that the code's input has.
use woyengi.Base.{
  ℕ, suc, none, List, [], ◌∷◌, Text, text, Result, ok, ◌>>=◌, ◌>>◌, length, Host, required_text,
  namespaced, normalize_instant,
}
use woyengi.Core.{StateValue}
use woyengi.Work.Records.{
  Participant, WorkRoleBindings, Context, WorkOutcome, active, planned, WorkInstance, WorkEpisode,
  Activity, assigned, Assignment, WorkChange, episode_started, activity_added, activity_assigned,
  outcome_recorded, instance_created, changing, WorkOperation,
}
use woyengi.Work.Inputs.{
  work_instance_id, work_episode_id, activity_id, assignment_id, work_outcome_id, operation_id,
  workspace_id, principal_id, explicit_instant, version, normalize_participant,
  normalize_participants, normalize_roles, assert_participant,
}
use woyengi.Work.Registry.{Registry}
use woyengi.Work.Applying.{apply, read_instance, next_ledger_sequence}

-- What every input of a change has.
pub record ChangeInput : Type 0 where
  pub operation : Text
  pub workspace : Text
  pub work_instance : Text
  pub expected_version : ℕ
  pub actor : Text
  pub recorded_at : Text

pub record CreateInput : Type 0 where
  pub operation : Text
  pub id : Text
  pub workspace : Text
  pub intent : Text
  pub created_by : Text
  pub participants : List Participant
  pub roles : WorkRoleBindings
  pub context : Context
  pub recorded_at : Text

module _ ⦃h : Host⦄ where
  unfoldable pub create_work_instance : CreateInput → Registry → Result (Registry × WorkInstance)
  create_work_instance input r = do
    participants ← normalize_participants input.participants
    roles ← normalize_roles input.roles participants
    created_by ← principal_id input.created_by
    assert_participant participants created_by
    id ← work_instance_id input.id
    workspace ← workspace_id input.workspace
    intent ← required_text (text "work intent") input.intent
    created_at ← normalize_instant explicit_instant input.recorded_at
    operation ← operation_id input.operation
    let created : WorkInstance = record {
      id = id;
      workspace_id = workspace;
      intent = intent;
      version = 1;
      status = active;
      participants = participants;
      roles = roles;
      context = input.context;
      episode_ids = [];
      activity_ids = [];
      assignment_ids = [];
      outcomes = [];
      created_at = created_at;
    }
    s ←
        apply
          (record {
            id = operation;
            ledger_sequence = next_ledger_sequence r workspace;
            workspace_id = workspace;
            work_instance_id = id;
            actor_principal_id = created_by;
            from = created_at;
            body = instance_created created;
          })
          r
    ok (s, created)

  -- The operation of a change by an actor at an instant, both valid.
  unfoldable pub change_operation :
      ChangeInput → WorkInstance → Text → Text → WorkChange → Registry → Result WorkOperation
  change_operation input i actor recorded_at change r = do
    operation ← operation_id input.operation
    expected ← version input.expected_version
    ok (record {
      id = operation;
      ledger_sequence = next_ledger_sequence r i.workspace_id;
      workspace_id = i.workspace_id;
      work_instance_id = i.id;
      actor_principal_id = actor;
      from = recorded_at;
      body = changing expected change;
    })

  unfoldable pub start_episode :
      ChangeInput → Text → Text → Context → Registry → Result (Registry × WorkEpisode)
  unfolding change_operation
  start_episode input id objective context r = do
    i ← read_instance r input.workspace input.work_instance
    episode_id ← work_episode_id id
    objective_text ← required_text (text "episode objective") objective
    actor ← principal_id input.actor
    started_at ← normalize_instant explicit_instant input.recorded_at
    let episode : WorkEpisode = record {
      id = episode_id;
      workspace_id = i.workspace_id;
      work_instance_id = i.id;
      sequence = suc (length i.episode_ids);
      objective = objective_text;
      status = active;
      started_by_principal_id = actor;
      context = context;
      started_at = started_at;
    }
    op ← change_operation input i actor started_at (episode_started episode) r
    s ← apply op r
    ok (s, episode)

  unfoldable pub add_activity :
      ChangeInput → Text → Text → Text → Context → Registry → Result (Registry × Activity)
  unfolding change_operation
  add_activity input id activity_type episode context r = do
    i ← read_instance r input.workspace input.work_instance
    new_id ← activity_id id
    type_name ← namespaced (text "activity type") activity_type
    episode_id ← work_episode_id episode
    actor ← principal_id input.actor
    created_at ← normalize_instant explicit_instant input.recorded_at
    let activity : Activity = record {
      id = new_id;
      activity_type = type_name;
      workspace_id = i.workspace_id;
      work_instance_id = i.id;
      work_episode_id = episode_id;
      status = planned;
      context = context;
      created_by_principal_id = actor;
      created_at = created_at;
    }
    op ← change_operation input i actor created_at (activity_added activity) r
    s ← apply op r
    ok (s, activity)

  unfoldable pub assign_activity :
      ChangeInput
      → Text
      → Text
      → Participant
      → Text
      → Context
      → Registry
      → Result (Registry × Assignment)
  unfolding change_operation
  assign_activity input id activity assignee reference context r = do
    i ← read_instance r input.workspace input.work_instance
    actor ← principal_id input.actor
    to ← normalize_participant assignee
    recorded_at ← normalize_instant explicit_instant input.recorded_at
    new_id ← assignment_id id
    activity_key ← activity_id activity
    authorization ← namespaced (text "authorization reference") reference
    let assignment : Assignment = record {
      id = new_id;
      workspace_id = i.workspace_id;
      work_instance_id = i.id;
      activity_id = activity_key;
      assignee = to;
      previous_assignee = none;
      status = active;
      context = context;
      transitions =
          record {
            kind = assigned;
            actor_principal_id = actor;
            authorization_reference = authorization;
            from = none;
            to = to;
            context = context;
            transaction_time = recorded_at;
          }
          ∷ [];
    }
    op ← change_operation input i actor recorded_at (activity_assigned assignment) r
    s ← apply op r
    ok (s, assignment)

  unfoldable pub record_outcome :
      ChangeInput → Text → StateValue → Registry → Result (Registry × WorkOutcome)
  unfolding change_operation
  record_outcome input id value r = do
    i ← read_instance r input.workspace input.work_instance
    outcome_id ← work_outcome_id id
    actor ← principal_id input.actor
    recorded_at ← normalize_instant explicit_instant input.recorded_at
    let outcome : WorkOutcome = record {
      id = outcome_id;
      value = value;
      recorded_by_principal_id = actor;
      recorded_at = recorded_at;
    }
    op ← change_operation input i actor recorded_at (outcome_recorded outcome) r
    s ← apply op r
    ok (s, outcome)
