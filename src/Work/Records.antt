-- ===== src/Work/Records.antt =====
-- packages/work/src/index.ts: the records of a work instance and the operations on it. A branded id
-- is a text; `kind` of an operation is in its body.
use woyengi.Base.{ℕ, Option, List, Text}
use woyengi.Base.Dict.{Dict}
use woyengi.Core.{StateValue}

pub data PrincipalKind : Type 0 where
  human agent service automation : PrincipalKind

-- `Principal`, and `ParticipantReference` with its `principalId`.
pub record Participant : Type 0 where
  pub principal_id : Text
  pub kind : PrincipalKind

pub record WorkRoleBindings : Type 0 where
  pub work_owners : List Text
  pub decision_authorities : List Text
  pub reviewers : List Text
  pub approvers : List Text

abbrev pub Context : Type 0
Context = Dict StateValue

pub record WorkOutcome : Type 0 where
  pub id : Text
  pub value : StateValue
  pub recorded_by_principal_id : Text
  pub recorded_at : Text

pub data WorkStatus : Type 0 where
  planned active suspended completed : WorkStatus

pub record WorkInstance : Type 0 where
  pub id : Text
  pub workspace_id : Text
  pub intent : Text
  pub version : ℕ
  pub status : WorkStatus
  pub participants : List Participant
  pub roles : WorkRoleBindings
  pub context : Context
  pub episode_ids : List Text
  pub activity_ids : List Text
  pub assignment_ids : List Text
  pub outcomes : List WorkOutcome
  pub created_at : Text

pub record WorkEpisode : Type 0 where
  pub id : Text
  pub workspace_id : Text
  pub work_instance_id : Text
  pub sequence : ℕ
  pub objective : Text
  pub status : WorkStatus
  pub started_by_principal_id : Text
  pub context : Context
  pub started_at : Text

pub record Activity : Type 0 where
  pub id : Text
  pub activity_type : Text
  pub workspace_id : Text
  pub work_instance_id : Text
  pub work_episode_id : Text
  pub status : WorkStatus
  pub context : Context
  pub created_by_principal_id : Text
  pub created_at : Text

-- The kinds of an operation that changes an assignment.
pub data ChangeKind : Type 0 where
  handed_off taken_over given_back suspending resuming : ChangeKind

pub data TransitionKind : Type 0 where
  assigned : TransitionKind
  changed : ChangeKind → TransitionKind

pub record AssignmentTransition : Type 0 where
  pub kind : TransitionKind
  pub actor_principal_id : Text
  pub authorization_reference : Text
  pub from : Option Participant
  pub to : Participant
  pub context : Context
  pub transaction_time : Text

pub record Assignment : Type 0 where
  pub id : Text
  pub workspace_id : Text
  pub work_instance_id : Text
  pub activity_id : Text
  pub assignee : Participant
  pub previous_assignee : Option Participant
  pub status : WorkStatus
  pub context : Context
  pub transitions : List AssignmentTransition

pub data WorkActivityKind : Type 0 where
  work_instance_created work_episode_started activity_was_added activity_was_assigned :
      WorkActivityKind
  assignment_was_changed : ChangeKind → WorkActivityKind
  outcome_was_recorded : WorkActivityKind

pub record WorkActivityEntry : Type 0 where
  pub id : Text
  pub sequence : ℕ
  pub kind : WorkActivityKind
  pub workspace_id : Text
  pub work_instance_id : Text
  pub actor_principal_id : Text
  pub work_episode_id : Option Text
  pub activity_id : Option Text
  pub assignment_id : Option Text
  pub from : Text

pub record AssignmentChange : Type 0 where
  pub kind : ChangeKind
  pub assignment_id : Text
  pub authorization_reference : Text
  pub to : Option Participant
  pub context : Context

-- What an operation on an instance that is there does.
pub data WorkChange : Type 0 where
  episode_started : WorkEpisode → WorkChange
  activity_added : Activity → WorkChange
  activity_assigned : Assignment → WorkChange
  assignment_changed : AssignmentChange → WorkChange
  outcome_recorded : WorkOutcome → WorkChange

pub data WorkBody : Type 0 where
  instance_created : WorkInstance → WorkBody
  changing : (expected_version : ℕ) → WorkChange → WorkBody

pub record WorkOperation : Type 0 where
  pub id : Text
  pub ledger_sequence : ℕ
  pub workspace_id : Text
  pub work_instance_id : Text
  pub actor_principal_id : Text
  pub from : Text
  pub body : WorkBody
