-- ===== src/Work/Handling.antt =====
-- packages/work/src/index.ts: `#changeAssignment` and the methods that use it.
use woyengi.Base.{
  Option, none, some, ◌++◌, Text, text, Result, ok, ◌>>=◌, Host, namespaced, normalize_instant,
}
use woyengi.Base.Dict.{get}
use woyengi.Work.Records.{
  Participant, Context, ChangeKind, handed_off, taken_over, given_back, suspending, resuming,
  Assignment, assignment_changed, changing,
}
use woyengi.Work.Inputs.{
  assignment_id, operation_id, principal_id, explicit_instant, version, normalize_participant,
}
use woyengi.Work.Registry.{Registry, require}
use woyengi.Work.Applying.{apply, read_instance, next_ledger_sequence}
use woyengi.Work.Methods.{ChangeInput}

pub record TransitionInput : Type 0 where
  pub base : ChangeInput
  pub assignment : Text
  pub authorization_reference : Text
  pub context : Context

module _ ⦃h : Host⦄ where
  abbrev pub optional_participant : Option Participant → Result (Option Participant)
  optional_participant none = ok none
  optional_participant (some p) = do q ← normalize_participant p; ok (some q)

  -- `#changeAssignment`
  unfoldable pub change_assignment :
      ChangeKind → TransitionInput → Option Participant → Registry → Result (Registry × Assignment)
  change_assignment kind input to r = do
    i ← read_instance r input.base.workspace input.base.work_instance
    operation ← operation_id input.base.operation
    actor ← principal_id input.base.actor
    recorded_at ← normalize_instant explicit_instant input.base.recorded_at
    expected ← version input.base.expected_version
    key ← assignment_id input.assignment
    authorization ← namespaced (text "authorization reference") input.authorization_reference
    target ← optional_participant to
    s ←
        apply
          (record {
            id = operation;
            ledger_sequence = next_ledger_sequence r i.workspace_id;
            workspace_id = i.workspace_id;
            work_instance_id = i.id;
            actor_principal_id = actor;
            from = recorded_at;
            body = changing expected (
                assignment_changed (record {
                  kind = kind;
                  assignment_id = key;
                  authorization_reference = authorization;
                  to = target;
                  context = input.context;
                }));
          })
          r
    -- It is there, since `apply` set it.
    a ← require (get key s.assignments) (text "assignment does not exist: " ++ key)
    ok (s, a)

  unfoldable pub hand_off_activity :
      TransitionInput → Participant → Registry → Result (Registry × Assignment)
  unfolding change_assignment
  hand_off_activity input to r = change_assignment handed_off input (some to) r

  -- The actor is the target.
  unfoldable pub take_over_activity :
      TransitionInput → Participant → Registry → Result (Registry × Assignment)
  unfolding change_assignment
  take_over_activity input actor r =
      change_assignment taken_over
        (record input { base = record input.base { actor = actor.principal_id } }) (some actor) r

  unfoldable pub give_back_activity : TransitionInput → Registry → Result (Registry × Assignment)
  unfolding change_assignment
  give_back_activity input r = change_assignment given_back input none r

  unfoldable pub suspend_activity : TransitionInput → Registry → Result (Registry × Assignment)
  unfolding change_assignment
  suspend_activity input r = change_assignment suspending input none r

  unfoldable pub resume_activity : TransitionInput → Registry → Result (Registry × Assignment)
  unfolding change_assignment
  resume_activity input r = change_assignment resuming input none r
