-- ===== src/Work/Histories.antt =====
-- packages/work/src/index.ts: the registries that the methods can reach.
use woyengi.Base.{
  Option, some, List, Text, text, ok, ◌≡◌, refl, sym, ap, subst, ◌∙◌, ◌>>=◌, >>=-Returns,
  ok-Returns, value-Returns, Returns, ok-injective, Host, length, required_text, namespaced,
  normalize_instant,
}
use woyengi.Base.Dict.{get}
use woyengi.Base.Numbered.{IsNumbered}
use woyengi.Core.{StateValue}
use woyengi.Work.Records.{
  Participant, Context, WorkInstance, WorkEpisode, Activity, Assignment, WorkOutcome, ChangeKind,
  WorkChange, WorkActivityEntry, WorkOperation,
}
use woyengi.Work.Inputs.{
  work_instance_id, work_episode_id, activity_id, assignment_id, work_outcome_id, operation_id,
  workspace_id, principal_id, explicit_instant, version, normalize_participant,
  normalize_participants, normalize_roles, assert_participant,
}
use woyengi.Work.Registry.{Registry, no_work, require, assert_workspace}
use woyengi.Work.Applying.{apply, read_instance}
use woyengi.Work.Methods.{
  ChangeInput, CreateInput, create_work_instance, change_operation, start_episode, add_activity,
  assign_activity, record_outcome,
}
use woyengi.Work.Handling.{TransitionInput, change_assignment, optional_participant}
use woyengi.Work.Reading.{activity_stream}
use woyengi.Work.Numbering.{
  IsProper, IsTracked, apply-IsTracked, sequence_of, stream_of, require-ok,
}

module _ ⦃h : Host⦄ where
  -- A call of a method that returns. The five methods that change an assignment are calls of
  -- `change_assignment`.
  pub data Step : Registry → Registry → Type 0 where
    creating :
        {r s : Registry} (input : CreateInput) (i : WorkInstance)
        → create_work_instance input r ≡ ok (s, i)
        → Step r s
    starting :
        {r s : Registry} (input : ChangeInput) (id objective : Text) (context : Context)
        (e : WorkEpisode)
        → start_episode input id objective context r ≡ ok (s, e)
        → Step r s
    adding :
        {r s : Registry} (input : ChangeInput) (id type_name episode : Text) (context : Context)
        (a : Activity)
        → add_activity input id type_name episode context r ≡ ok (s, a)
        → Step r s
    assigning :
        {r s : Registry} (input : ChangeInput) (id activity : Text) (assignee : Participant)
        (reference : Text) (context : Context) (a : Assignment)
        → assign_activity input id activity assignee reference context r ≡ ok (s, a)
        → Step r s
    recording :
        {r s : Registry} (input : ChangeInput) (id : Text) (value : StateValue) (o : WorkOutcome)
        → record_outcome input id value r ≡ ok (s, o)
        → Step r s
    handling :
        {r s : Registry} (kind : ChangeKind) (input : TransitionInput) (to : Option Participant)
        (a : Assignment)
        → change_assignment kind input to r ≡ ok (s, a)
        → Step r s

  pub data Reachable : Registry → Type 0 where
    started : Reachable no_work
    after : {r s : Registry} → Reachable r → Step r s → Reachable s

  -- A call applies one operation.
  Applies : Registry → Registry → Type 0
  Applies r s = (op : WorkOperation) × (IsProper op.work_instance_id op.body) × (apply op r ≡ ok s)

  change_operation-IsProper :
      (input : ChangeInput) (i : WorkInstance) (actor at : Text) (c : WorkChange) (r : Registry)
      → Returns (λ op. IsProper op.work_instance_id op.body) (change_operation input i actor at c r)
  unfolding change_operation
  change_operation-IsProper input i actor at c r =
      >>=-Returns _ (operation_id input.operation) _
        (λ operation _. >>=-Returns _ (version input.expected_version) _ (λ v _. ok-Returns _ _ tt))

  -- The end of a method that changes an instance.
  changed-Applies :
      {A : Type 0} (input : ChangeInput) (i : WorkInstance) (actor at : Text) (c : WorkChange)
      (x : A) (r : Registry)
      → Returns
          (λ p. Applies r p.0)
          (◌>>=◌ {Y = Registry × A}
            (change_operation input i actor at c r)
            (λ op. ◌>>=◌ {Y = Registry × A} (apply op r) (λ t. ok (t, x))))
  unfolding Applies
  changed-Applies input i actor at c x r =
      >>=-Returns _ (change_operation input i actor at c r) _ (λ op made.
        >>=-Returns _ (apply op r) _ (λ t applied.
          let proper =
            value-Returns (λ o. IsProper o.work_instance_id o.body)
              (change_operation input i actor at c r) op
              (change_operation-IsProper input i actor at c r) made in
          ok-Returns _ (t, x) (op, proper, applied)))

  create_work_instance-Applies :
      (input : CreateInput) (r : Registry)
      → Returns (λ p. Applies r p.0) (create_work_instance input r)
  unfolding create_work_instance Applies
  create_work_instance-Applies input r =
      >>=-Returns _ (normalize_participants input.participants) _ (λ participants _.
        >>=-Returns _ (normalize_roles input.roles participants) _ (λ _ _.
          >>=-Returns _ (principal_id input.created_by) _ (λ by _.
            >>=-Returns _ (assert_participant participants by) _ (λ _ _.
              >>=-Returns _ (work_instance_id input.id) _ (λ id _.
                >>=-Returns _ (workspace_id input.workspace) _ (λ _ _.
                  >>=-Returns _ (required_text (text "work intent") input.intent) _ (λ _ _.
                    >>=-Returns _ (normalize_instant explicit_instant input.recorded_at) _ (λ _ _.
                      >>=-Returns _ (operation_id input.operation) _ (λ _ _.
                        >>=-Returns _ (apply _ r) _
                          (λ t applied. ok-Returns _ (t, _) (_, (refl, refl), applied)))))))))))

  start_episode-Applies :
      (input : ChangeInput) (id objective : Text) (context : Context) (r : Registry)
      → Returns (λ p. Applies r p.0) (start_episode input id objective context r)
  unfolding start_episode
  start_episode-Applies input id objective context r =
      >>=-Returns _ (read_instance r input.workspace input.work_instance) _ (λ i _.
        >>=-Returns _ (work_episode_id id) _ (λ _ _.
          >>=-Returns _ (required_text (text "episode objective") objective) _ (λ _ _.
            >>=-Returns _ (principal_id input.actor) _ (λ actor _.
              >>=-Returns _ (normalize_instant explicit_instant input.recorded_at) _
                (λ at _. changed-Applies input i actor at _ _ r)))))

  add_activity-Applies :
      (input : ChangeInput) (id type_name episode : Text) (context : Context) (r : Registry)
      → Returns (λ p. Applies r p.0) (add_activity input id type_name episode context r)
  unfolding add_activity
  add_activity-Applies input id type_name episode context r =
      >>=-Returns _ (read_instance r input.workspace input.work_instance) _ (λ i _.
        >>=-Returns _ (activity_id id) _ (λ _ _.
          >>=-Returns _ (namespaced (text "activity type") type_name) _ (λ _ _.
            >>=-Returns _ (work_episode_id episode) _ (λ _ _.
              >>=-Returns _ (principal_id input.actor) _ (λ actor _.
                >>=-Returns _ (normalize_instant explicit_instant input.recorded_at) _
                  (λ at _. changed-Applies input i actor at _ _ r))))))

  assign_activity-Applies :
      (input : ChangeInput) (id activity : Text) (assignee : Participant) (reference : Text)
      (context : Context) (r : Registry)
      → Returns
          (λ p. Applies r p.0)
          (assign_activity input id activity assignee reference context r)
  unfolding assign_activity
  assign_activity-Applies input id activity assignee reference context r =
      >>=-Returns _ (read_instance r input.workspace input.work_instance) _ (λ i _.
        >>=-Returns _ (principal_id input.actor) _ (λ actor _.
          >>=-Returns _ (normalize_participant assignee) _ (λ _ _.
            >>=-Returns _ (normalize_instant explicit_instant input.recorded_at) _ (λ at _.
              >>=-Returns _ (assignment_id id) _ (λ _ _.
                >>=-Returns _ (activity_id activity) _ (λ _ _.
                  >>=-Returns _ (namespaced (text "authorization reference") reference) _
                    (λ _ _. changed-Applies input i actor at _ _ r)))))))

  record_outcome-Applies :
      (input : ChangeInput) (id : Text) (value : StateValue) (r : Registry)
      → Returns (λ p. Applies r p.0) (record_outcome input id value r)
  unfolding record_outcome
  record_outcome-Applies input id value r =
      >>=-Returns _ (read_instance r input.workspace input.work_instance) _ (λ i _.
        >>=-Returns _ (work_outcome_id id) _ (λ _ _.
          >>=-Returns _ (principal_id input.actor) _ (λ actor _.
            >>=-Returns _ (normalize_instant explicit_instant input.recorded_at) _
              (λ at _. changed-Applies input i actor at _ _ r))))

  change_assignment-Applies :
      (kind : ChangeKind) (input : TransitionInput) (to : Option Participant) (r : Registry)
      → Returns (λ p. Applies r p.0) (change_assignment kind input to r)
  unfolding change_assignment Applies
  change_assignment-Applies kind input to r =
      >>=-Returns _ (read_instance r input.base.workspace input.base.work_instance) _ (λ i _.
        >>=-Returns _ (operation_id input.base.operation) _ (λ _ _.
          >>=-Returns _ (principal_id input.base.actor) _ (λ _ _.
            >>=-Returns _ (normalize_instant explicit_instant input.base.recorded_at) _ (λ _ _.
              >>=-Returns _ (version input.base.expected_version) _ (λ _ _.
                >>=-Returns _ (assignment_id input.assignment) _ (λ key _.
                  >>=-Returns _
                    (namespaced (text "authorization reference") input.authorization_reference) _
                    (λ _ _. >>=-Returns _ (optional_participant to) _ (λ _ _.
                      >>=-Returns _ (apply _ r) _ (λ t applied.
                        >>=-Returns _ (require (get key t.assignments) _) _
                          (λ a _. ok-Returns _ (t, a) (_, tt, applied)))))))))))

  step-Applies : {r s : Registry} → Step r s → Applies r s
  step-Applies {r} {s} (creating input i k) =
      value-Returns _ (create_work_instance input r) (s, i) (create_work_instance-Applies input r) k
  step-Applies {r} {s} (starting input id objective context e k) =
      value-Returns _ (start_episode input id objective context r) (s, e)
        (start_episode-Applies input id objective context r) k
  step-Applies {r} {s} (adding input id type_name episode context a k) =
      value-Returns _ (add_activity input id type_name episode context r) (s, a)
        (add_activity-Applies input id type_name episode context r) k
  step-Applies {r} {s} (assigning input id activity assignee reference context a k) =
      value-Returns _ (assign_activity input id activity assignee reference context r) (s, a)
        (assign_activity-Applies input id activity assignee reference context r) k
  step-Applies {r} {s} (recording input id value o k) =
      value-Returns _ (record_outcome input id value r) (s, o)
        (record_outcome-Applies input id value r) k
  step-Applies {r} {s} (handling kind input to a k) =
      value-Returns _ (change_assignment kind input to r) (s, a)
        (change_assignment-Applies kind input to r) k

  pub reachable-IsTracked : {r : Registry} → Reachable r → IsTracked r
  unfolding get Applies
  reachable-IsTracked started = record {
    known = λ k i g. absurd (cc);
    unknown = λ k g. refl;
    filed = λ k a g. absurd (cc);
  }
  reachable-IsTracked (after {r} {s} reached step) =
      let (op, proper, applied) = step-Applies step in
      apply-IsTracked op r s proper (reachable-IsTracked reached) applied

  read_instance-ok :
      (r : Registry) (workspace id : Text)
      → Returns (λ i. (k : Text) × (get k r.instances ≡ some i)) (read_instance r workspace id)
  unfolding read_instance
  read_instance-ok r workspace id = >>=-Returns _ (work_instance_id id) _ (λ key _.
      >>=-Returns _ (require (get key r.instances) _) _ (λ i found.
        >>=-Returns _ (workspace_id workspace) _ (λ expected _.
          >>=-Returns _ (assert_workspace i.workspace_id expected (text "work instance")) _
            (λ _ _. ok-Returns _ i (key, require-ok (get key r.instances) _ i found)))))

  -- After any calls of the methods, the version of an instance is the number of entries of its
  -- activity stream, and these are numbered from one on without a gap.
  pub reachable-version :
      (r : Registry) (workspace id : Text) (i : WorkInstance) (es : List WorkActivityEntry)
      → Reachable r
      → read_instance r workspace id ≡ ok i
      → activity_stream r workspace id ≡ ok es
      → (i.version ≡ length es) × IsNumbered sequence_of 0 es
  unfolding activity_stream
  reachable-version r workspace id i es reached read streamed =
      let (k, found) =
        value-Returns _ (read_instance r workspace id) i (read_instance-ok r workspace id) read in
      let at = (reachable-IsTracked reached).known k i found in
      let same : stream_of r k ≡ es =
        ap (stream_of r) (sym at.same_id)
        ∙ ok-injective (subst (λ m. (m >>= λ j. ok (stream_of r j.id)) ≡ ok es) read streamed) in
      (at.counted ∙ ap length same, subst (IsNumbered sequence_of 0) same at.numbered)
