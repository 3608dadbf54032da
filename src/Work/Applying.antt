-- ===== src/Work/Applying.antt =====
-- packages/work/src/index.ts: `#apply`, of one operation.
use woyengi.Base.{
  ℕ, suc, Option, none, some, [], ◌∷◌, ◌++◌, Text, text, not, ◌||◌, ◌==◌, Result, ok, plain_error,
  type_error, ◌>>=◌, ◌>>◌, throw_if, length, ltb, Host, normalize_instant, if◌then◌else◌,
  or_default,
}
use woyengi.Base.Dict.{get, set, has, member, add}
use woyengi.Base.Number.{integer}
use woyengi.Work.Records.{
  WorkInstance, WorkActivityKind, work_instance_created, work_episode_started, activity_was_added,
  activity_was_assigned, assignment_was_changed, outcome_was_recorded, WorkActivityEntry,
  WorkChange, episode_started, activity_added, activity_assigned, assignment_changed,
  outcome_recorded, WorkBody, instance_created, changing, WorkOperation,
}
use woyengi.Work.Inputs.{
  work_instance_id, operation_id, workspace_id, principal_id, explicit_instant, version,
  assert_participant,
}
use woyengi.Work.Registry.{
  Registry, assert_workspace, require, apply_episode, apply_activity, apply_assignment,
  apply_outcome,
}
use woyengi.Work.Changes.{apply_assignment_change}

-- `Math.max`
abbrev larger : ℕ → ℕ → ℕ
larger a b = if ltb a b then b else a

abbrev max_safe_integer : ℕ
max_safe_integer = 9007199254740991

-- The kind of an entry and the ids that it names.
record EntryDetail : Type 0 where
  kind : WorkActivityKind
  episode : Option Text
  activity : Option Text
  assignment : Option Text

detail_of : WorkBody → EntryDetail
detail_of (instance_created i) = record {
  kind = work_instance_created;
  episode = none;
  activity = none;
  assignment = none;
}
detail_of (changing v (episode_started e)) = record {
  kind = work_episode_started;
  episode = some e.id;
  activity = none;
  assignment = none;
}
detail_of (changing v (activity_added a)) = record {
  kind = activity_was_added;
  episode = some a.work_episode_id;
  activity = some a.id;
  assignment = none;
}
detail_of (changing v (activity_assigned a)) = record {
  kind = activity_was_assigned;
  episode = none;
  activity = some a.activity_id;
  assignment = some a.id;
}
detail_of (changing v (assignment_changed c)) = record {
  kind = assignment_was_changed c.kind;
  episode = none;
  activity = none;
  assignment = some c.assignment_id;
}
detail_of (changing v (outcome_recorded o)) = record {
  kind = outcome_was_recorded;
  episode = none;
  activity = none;
  assignment = none;
}

unfoldable pub entry_of : WorkOperation → ℕ → WorkActivityEntry
unfolding detail_of
entry_of op sequence =
    let detail = detail_of op.body in
    record {
      id = op.id;
      sequence = sequence;
      kind = detail.kind;
      workspace_id = op.workspace_id;
      work_instance_id = op.work_instance_id;
      actor_principal_id = op.actor_principal_id;
      work_episode_id = detail.episode;
      activity_id = detail.activity;
      assignment_id = detail.assignment;
      from = op.from;
    }

-- `#appendActivityEntry`
unfoldable pub append_activity_entry : WorkOperation → Registry → Registry
append_activity_entry op r =
    let stream = or_default (get op.work_instance_id r.streams) [] in
    record r {
      streams =
          set op.work_instance_id (stream ++ entry_of op (suc (length stream)) ∷ []) r.streams;
    }

abbrev pub next_ledger_sequence : Registry → Text → ℕ
next_ledger_sequence r workspace =
    suc (or_default (get workspace r.last_ledger_sequence_by_workspace) 0)

unfoldable pub apply_change : WorkInstance → WorkOperation → WorkChange → Registry → Result Registry
apply_change i op (episode_started e) r = apply_episode i e r
apply_change i op (activity_added a) r = apply_activity i a r
apply_change i op (activity_assigned a) r = apply_assignment i a r
apply_change i op (assignment_changed c) r = apply_assignment_change i op c r
apply_change i op (outcome_recorded o) r = apply_outcome i o r

module _ ⦃h : Host⦄ where
  -- `#assertExpectedVersion`
  unfoldable pub assert_expected_version : WorkOperation → ℕ → Registry → Result WorkInstance
  unfolding assert_workspace
  assert_expected_version op expected r = do
    i ←
        require (get op.work_instance_id r.instances)
          (text "work instance does not exist: " ++ op.work_instance_id)
    assert_workspace i.workspace_id op.workspace_id (text "work instance")
    throw_if (not (expected == i.version)) plain_error (
        text "work version conflict: expected "
        ++ (h.number_to_string (integer expected)
            ++ (text ", actual " ++ h.number_to_string (integer i.version))))
    ok i

  validate_body : WorkBody → Result (Unit {0})
  validate_body (instance_created i) = ok tt
  validate_body (changing expected c) = do v ← version expected; ok tt

  unfoldable pub validate_operation : WorkOperation → Result (Unit {0})
  unfolding validate_body
  validate_operation op = do
    a ← operation_id op.id
    throw_if (ltb max_safe_integer op.ledger_sequence || ltb op.ledger_sequence 1) type_error
        (text "work ledgerSequence must be a positive safe integer")
    b ← workspace_id op.workspace_id
    c ← work_instance_id op.work_instance_id
    d ← principal_id op.actor_principal_id
    e ← normalize_instant explicit_instant op.from
    validate_body op.body

  abbrev pub sequence_key : WorkOperation → Text
  sequence_key op = op.workspace_id ++ 0 ∷ h.number_to_string (integer op.ledger_sequence)

  -- The branches of `#apply`.
  unfoldable pub apply_body : WorkOperation → WorkBody → Registry → Result Registry
  apply_body op (instance_created i) r = do
    throw_if (has op.work_instance_id r.instances) plain_error
        (text "work instance already exists: " ++ op.work_instance_id)
    ok (record r { instances = set op.work_instance_id i r.instances })
  apply_body op (changing expected change) r = do
    i ← assert_expected_version op expected r
    assert_participant i.participants op.actor_principal_id
    apply_change i op change r

  -- The end of `#apply`.
  unfoldable pub register_operation : WorkOperation → Registry → Registry
  unfolding append_activity_entry
  register_operation op r =
      let last = or_default (get op.workspace_id r.last_ledger_sequence_by_workspace) 0 in
      record (append_activity_entry op r) {
        operation_ids = add op.id r.operation_ids;
        ledger_sequences = add (sequence_key op) r.ledger_sequences;
        last_ledger_sequence_by_workspace =
            set op.workspace_id (larger last op.ledger_sequence)
              r.last_ledger_sequence_by_workspace;
        operations = r.operations ++ op ∷ [];
      }

  unfoldable pub apply : WorkOperation → Registry → Result Registry
  unfolding validate_operation apply_body register_operation
  apply op r = do
    valid ← validate_operation op
    throw_if (member op.id r.operation_ids) plain_error
        (text "work operation already exists: " ++ op.id)
    throw_if (member (sequence_key op) r.ledger_sequences) plain_error (
        text "work ledger sequence already exists: "
        ++ (op.workspace_id ++ (text ":" ++ h.number_to_string (integer op.ledger_sequence))))
    changed_registry ← apply_body op op.body r
    ok (register_operation op changed_registry)

  -- `#readInstance`
  unfoldable pub read_instance : Registry → Text → Text → Result WorkInstance
  unfolding assert_workspace
  read_instance r workspace id = do
    key ← work_instance_id id
    i ← require (get key r.instances) (text "work instance does not exist: " ++ key)
    expected ← workspace_id workspace
    assert_workspace i.workspace_id expected (text "work instance")
    ok i
