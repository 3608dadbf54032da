-- ===== src/Work/Tests.antt =====
-- A run of the work registry.
use woyengi.Base.{
  ℕ, List, length, none, some, [], ◌∷◌, ◌++◌, Text, text, Bool, true, false, Result, ok, raise, ◌≡◌,
  ◌≢◌, refl, normalize_instant, prefixed, namespaced, required_text, text_discrete, compare_units,
  starts_with, includes, trim, map_result, keep, any, find, all,
}
use woyengi.Base.Dict.{get, set, member, add, add_all}
use woyengi.Base.Numbered.{IsNumbered}
use woyengi.Base.Number.{integer}
use woyengi.Base.Sort.{sort}
use woyengi.Core.{StateValue}
use woyengi.Work.Records.{
  Participant, human, active, WorkInstance, Assignment, WorkActivityEntry, WorkOperation, changing,
  outcome_recorded,
}
use woyengi.Work.Inputs.{
  prefixed_id, version, normalize_participant, normalize_participants, normalize_roles,
  assert_participant,
}
use woyengi.Work.Registry.{
  Registry, no_work, assert_workspace, assert_scope, assert_participant_reference, apply_episode,
  apply_activity, apply_assignment, apply_outcome,
}
use woyengi.Work.Changes.{apply_assignment_change, hold, merge_context}
use woyengi.Work.Applying.{
  apply, apply_body, apply_change, assert_expected_version, register_operation, validate_operation,
  append_activity_entry, entry_of, read_instance,
}
use woyengi.Work.Methods.{
  ChangeInput, CreateInput, create_work_instance, change_operation, start_episode, add_activity,
  assign_activity,
}
use woyengi.Work.Handling.{
  TransitionInput, change_assignment, hand_off_activity, give_back_activity,
}
use woyengi.Work.Reading.{assignment, activity_stream}
use woyengi.Work.HandBack.{give_back-hand_off}
use woyengi.Work.Histories.{
  Reachable, started, after, creating, starting, adding, assigning, reachable-version,
}
use woyengi.Work.Numbering.{sequence_of}
use woyengi.Work.Staleness.{apply-stale}
use woyengi.Samples.{plain_host, value_or}

abbrev is_ok {ℓ} : {A : Type ℓ} → Result A → Bool
is_ok (ok a) = true
is_ok (raise c m) = false

ok-value : {A : Type 0} (d : A) (r : Result A) → is_ok r ≡ true → r ≡ ok (value_or d r)
ok-value d (ok a) h = refl
ok-value d (raise c m) h = absurd (cc)

abbrev ann : Participant
ann = record { principal_id = text "principal:a"; kind = human }

abbrev bob : Participant
bob = record { principal_id = text "principal:b"; kind = human }

abbrev create_input : CreateInput
create_input = record {
  operation = text "work-operation:1";
  id = text "work-instance:i";
  workspace = text "workspace:w";
  intent = text "x";
  created_by = text "principal:a";
  participants = bob ∷ ann ∷ [];
  roles = record {
    work_owners = text "principal:a" ∷ [];
    decision_authorities = text "principal:a" ∷ [];
    reviewers = text "principal:b" ∷ [];
    approvers = [];
  };
  context = [];
  recorded_at = text "1Z";
}

abbrev no_instance : WorkInstance
no_instance = record {
  id = [];
  workspace_id = [];
  intent = [];
  version = 0;
  status = active;
  participants = [];
  roles = record { work_owners = []; decision_authorities = []; reviewers = []; approvers = [] };
  context = [];
  episode_ids = [];
  activity_ids = [];
  assignment_ids = [];
  outcomes = [];
  created_at = [];
}

abbrev created : Registry × WorkInstance
created = value_or (no_work, no_instance) (create_work_instance create_input no_work)

abbrev change : Text → ℕ → ChangeInput
change operation expected = record {
  operation = operation;
  workspace = text "workspace:w";
  work_instance = text "work-instance:i";
  expected_version = expected;
  actor = text "principal:a";
  recorded_at = text "2Z";
}

abbrev registry_of {ℓ} : {A : Type ℓ} → Result (Registry × A) → Registry
registry_of (ok p) = p.0
registry_of (raise c m) = no_work

abbrev with_episode : Registry
with_episode = registry_of (
    start_episode (change (text "work-operation:2") 1) (text "work-episode:e") (text "x") []
      created.0)

abbrev with_activity : Registry
with_activity = registry_of (
    add_activity (change (text "work-operation:3") 2) (text "activity:a") (text "t:x")
      (text "work-episode:e") [] with_episode)

abbrev with_assignment : Registry
with_assignment = registry_of (
    assign_activity (change (text "work-operation:4") 3) (text "assignment:s") (text "activity:a")
      ann (text "r:x") [] with_activity)

abbrev no_assignment : Assignment
no_assignment = record {
  id = [];
  workspace_id = [];
  work_instance_id = [];
  activity_id = [];
  assignee = ann;
  previous_assignee = none;
  status = active;
  context = [];
  transitions = [];
}

abbrev hand_off_input : TransitionInput
hand_off_input = record {
  base = change (text "work-operation:5") 4;
  assignment = text "assignment:s";
  authorization_reference = text "r:y";
  context = [];
}

abbrev give_back_input : TransitionInput
give_back_input = record {
  base = record (change (text "work-operation:6") 5) { actor = text "principal:b" };
  assignment = text "assignment:s";
  authorization_reference = text "r:z";
  context = [];
}

abbrev handed : Registry × Assignment
handed = value_or (no_work, no_assignment) (hand_off_activity hand_off_input bob with_assignment)

abbrev given : Registry × Assignment
given = value_or (no_work, no_assignment) (give_back_activity give_back_input handed.0)

registry-value :
    {A : Type 0} (m : Result (Registry × A))
    → is_ok m ≡ true
    → (x : A) × (m ≡ ok (registry_of m, x))
registry-value (ok (r, x)) h = (x, refl)
registry-value (raise c m) h = absurd (cc)

abbrev read : WorkInstance
read =
    value_or no_instance
      (read_instance with_assignment (text "workspace:w") (text "work-instance:i"))

abbrev stream : List WorkActivityEntry
stream = value_or [] (activity_stream with_assignment (text "workspace:w") (text "work-instance:i"))

abbrev outcome_operation : Text → ℕ → WorkOperation
outcome_operation id sequence = record {
  id = text "work-operation:" ++ id;
  ledger_sequence = sequence;
  workspace_id = text "workspace:w";
  work_instance_id = text "work-instance:i";
  actor_principal_id = text "principal:a";
  from = text "3Z";
  body = changing 1 (
      outcome_recorded (record {
        id = text "work-outcome:" ++ id;
        value = StateValue.null;
        recorded_by_principal_id = text "principal:a";
        recorded_at = text "3Z";
      }));
}

abbrev with_outcome : Registry
with_outcome = value_or no_work (apply (outcome_operation (text "7") 2) created.0)

-- The calls of the run return.
record Runs : Type 0 where
  creates : is_ok (create_work_instance create_input no_work) ≡ true
  assigns : is_ok (assignment with_assignment (text "workspace:w") (text "assignment:s")) ≡ true
  hands : is_ok (hand_off_activity hand_off_input bob with_assignment) ≡ true
  gives : is_ok (give_back_activity give_back_input handed.0) ≡ true
  starts :
      is_ok (
        start_episode
          (change (text "work-operation:2") 1)
          (text "work-episode:e")
          (text "x")
          []
          created.0)
      ≡ true
  adds :
      is_ok (
        add_activity
          (change (text "work-operation:3") 2)
          (text "activity:a")
          (text "t:x")
          (text "work-episode:e")
          []
          with_episode)
      ≡ true
  gives_activity :
      is_ok (
        assign_activity
          (change (text "work-operation:4") 3)
          (text "assignment:s")
          (text "activity:a")
          ann
          (text "r:x")
          []
          with_activity)
      ≡ true
  reads : is_ok (read_instance with_assignment (text "workspace:w") (text "work-instance:i")) ≡ true
  streams :
      is_ok (activity_stream with_assignment (text "workspace:w") (text "work-instance:i")) ≡ true
  records : is_ok (apply (outcome_operation (text "7") 2) created.0) ≡ true

runs : Runs
unfolding create_work_instance apply apply_body register_operation validate_operation
    append_activity_entry entry_of normalize_participants normalize_participant normalize_roles
    assert_participant prefixed_id version get set member add add_all sort integer prefixed
    namespaced required_text normalize_instant text text_discrete compare_units starts_with includes
    trim map_result keep any find all apply_change assert_expected_version assert_workspace
    assert_scope assert_participant_reference apply_episode apply_activity apply_assignment
    apply_outcome apply_assignment_change hold merge_context read_instance change_operation
    start_episode add_activity assign_activity change_assignment hand_off_activity
    give_back_activity assignment activity_stream
runs = record {
  creates = refl;
  assigns = refl;
  hands = refl;
  gives = refl;
  starts = refl;
  adds = refl;
  gives_activity = refl;
  reads = refl;
  streams = refl;
  records = refl;
}

after_creating : Reachable created.0
after_creating = after started (
    creating create_input created.1
      (ok-value (no_work, no_instance) (create_work_instance create_input no_work) runs.creates))

after_assigning : Reachable with_assignment
after_assigning =
    let (e, one) =
      registry-value
        (start_episode (change (text "work-operation:2") 1) (text "work-episode:e") (text "x") []
          created.0)
        runs.starts in
    let (a, two) =
      registry-value
        (add_activity (change (text "work-operation:3") 2) (text "activity:a") (text "t:x")
          (text "work-episode:e") [] with_episode)
        runs.adds in
    let (s, three) =
      registry-value
        (assign_activity (change (text "work-operation:4") 3) (text "assignment:s")
          (text "activity:a") ann (text "r:x") [] with_activity)
        runs.gives_activity in
    after (after (after after_creating (starting _ _ _ _ e one)) (adding _ _ _ _ _ a two))
      (assigning _ _ _ _ _ _ s three)

abbrev assigned_first : Assignment
assigned_first =
    value_or no_assignment (assignment with_assignment (text "workspace:w") (text "assignment:s"))

give_back-hand_off_example :
    (given.1.assignee ≡ assigned_first.assignee)
    × (given.1.previous_assignee ≡ some handed.1.assignee)
give_back-hand_off_example =
    give_back-hand_off with_assignment handed.0 given.0 (text "workspace:w") hand_off_input
      give_back_input bob assigned_first handed.1 given.1 after_assigning
      (ok-value no_assignment
        (assignment with_assignment (text "workspace:w") (text "assignment:s")) runs.assigns)
      (ok-value (no_work, no_assignment) (hand_off_activity hand_off_input bob with_assignment)
        runs.hands)
      refl
      (ok-value (no_work, no_assignment) (give_back_activity give_back_input handed.0) runs.gives)

reachable-version_example : (read.version ≡ length stream) × IsNumbered sequence_of 0 stream
reachable-version_example =
    reachable-version with_assignment (text "workspace:w") (text "work-instance:i") read stream
      after_assigning
      (ok-value no_instance
        (read_instance with_assignment (text "workspace:w") (text "work-instance:i")) runs.reads)
      (ok-value [] (activity_stream with_assignment (text "workspace:w") (text "work-instance:i"))
        runs.streams)

apply-stale_example : apply (outcome_operation (text "8") 3) with_outcome ≢ ok with_outcome
apply-stale_example =
    apply-stale created.0 with_outcome with_outcome (outcome_operation (text "7") 2)
      (outcome_operation (text "8") 3) 1 _ _ after_creating refl
      (ok-value no_work (apply (outcome_operation (text "7") 2) created.0) runs.records) refl refl
