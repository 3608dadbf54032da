-- ===== src/Work/HandBack.antt =====
-- packages/work/src/index.ts: a hand-off and the hand-back that answers it.
use woyengi.Base.{
  ℕ, Option, none, some, Text, text, not, ◌&&◌, ok, ◌≡◌, refl, sym, ap, subst, ◌∙◌, same, >>=-eq-ok,
  >>=-Returns, ok-Returns, value-Returns, Returns, ok-injective, throw_if, Host, namespaced,
  normalize_instant,
}
use woyengi.Base.Dict.{get, set, get-set_self}
use woyengi.Work.Records.{
  Participant, Assignment, AssignmentChange, ChangeKind, handed_off, given_back, WorkInstance,
  WorkOperation, changing, assignment_changed,
}
use woyengi.Work.Inputs.{
  assert_participant, assignment_id, operation_id, principal_id, explicit_instant, version,
  workspace_id,
}
use woyengi.Work.Registry.{
  assert_workspace, Registry, assert_scope, assert_participant_reference, require,
}
use woyengi.Work.Changes.{
  apply_assignment_change, Holding, hold, hold_to, is_taken_over, found_activity,
}
use woyengi.Work.Applying.{
  apply, apply_body, apply_change, assert_expected_version, register_operation,
  append_activity_entry, read_instance,
}
use woyengi.Work.Handling.{
  TransitionInput, change_assignment, optional_participant, hand_off_activity, give_back_activity,
}
use woyengi.Work.Reading.{assignment}
use woyengi.Work.Advancing.{IsFiled}
use woyengi.Work.Histories.{Reachable, after, handling, reachable-IsTracked}
use woyengi.Work.Numbering.{apply-ok, require-ok, some-eq}

-- What a change of an assignment did.
record IsChanged (c : AssignmentChange) (r s : Registry) : Type 0 where
  instance_ : WorkInstance
  before : Assignment
  after_ : Assignment
  held : Holding
  found : get c.assignment_id r.assignments ≡ some before
  holding : hold instance_ before c c.kind ≡ ok held
  stored : s.assignments ≡ set before.id after_ r.assignments
  same_id : after_.id ≡ before.id
  new_assignee : after_.assignee ≡ held.assignee
  new_previous : after_.previous_assignee ≡ held.previous

apply_assignment_change-IsChanged :
    (i : WorkInstance) (op : WorkOperation) (c : AssignmentChange) (r : Registry)
    → Returns (IsChanged c r) (apply_assignment_change i op c r)
unfolding apply_assignment_change
apply_assignment_change-IsChanged i op c r =
    >>=-Returns _ (require (get c.assignment_id r.assignments) _) _ (λ a found.
      >>=-Returns _ (assert_scope a.workspace_id a.work_instance_id i (text "assignment")) _ (λ _ _.
        >>=-Returns _
          (throw_if
            (not (is_taken_over c.kind) && not (same a.assignee.principal_id op.actor_principal_id))
            _ _)
          _
          (λ _ _. >>=-Returns _ (hold i a c c.kind) _ (λ held holding.
            >>=-Returns _ (found_activity (get a.activity_id r.activities)) _ (λ x _.
              ok-Returns _ _ (record {
                instance_ = i;
                before = a;
                after_ = _;
                held = held;
                found = require-ok _ _ a found;
                holding = holding;
                stored = refl;
                same_id = refl;
                new_assignee = refl;
                new_previous = refl;
              }))))))

hand-hold :
    (i : WorkInstance) (a : Assignment) (c : AssignmentChange)
    → Returns (λ (held : Holding). held.previous ≡ some a.assignee) (hold i a c handed_off)
unfolding hold hold_to
hand-hold i a c =
    >>=-Returns _ (require c.to _) _
      (λ to _. >>=-Returns _ (assert_participant_reference i to) _ (λ _ _. ok-Returns _ _ refl))

back-hold :
    (i : WorkInstance) (a : Assignment) (c : AssignmentChange)
    → Returns
        (λ (held : Holding).
          (a.previous_assignee ≡ some held.assignee) × (held.previous ≡ some a.assignee))
        (hold i a c given_back)
unfolding hold
back-hold i a c =
    >>=-Returns _ (require a.previous_assignee _) _
      (λ p found. ok-Returns _ _ (require-ok _ _ p found, refl))

module _ ⦃h : Host⦄ where
  -- What a call that changes an assignment did, on the assignment of its key.
  record IsHandled (kind : ChangeKind) (name : Text) (r s : Registry) (a : Assignment)
      : Type 0 where
    change : AssignmentChange
    of_kind : change.kind ≡ kind
    key : assignment_id name ≡ ok change.assignment_id
    step : IsChanged change r s
    result : get change.assignment_id s.assignments ≡ some a

  apply-IsChanged :
      (op : WorkOperation) (v : ℕ) (c : AssignmentChange) (r s : Registry)
      → op.body ≡ changing v (assignment_changed c)
      → apply op r ≡ ok s
      → IsChanged c r s
  unfolding apply_body apply_change register_operation append_activity_entry
  apply-IsChanged op v c r s body e =
      let (t, b, same) = apply-ok op r s e in
      let (i, _, e1) =
        >>=-eq-ok (assert_expected_version op v r) _
          (subst (λ x. apply_body op x r ≡ ok t) body b) in
      let (_, _, e2) = >>=-eq-ok (assert_participant i.participants op.actor_principal_id) _ e1 in
      let w =
        value-Returns (IsChanged c r) (apply_assignment_change i op c r) t
          (apply_assignment_change-IsChanged i op c r) e2 in
      record {
        instance_ = w.instance_;
        before = w.before;
        after_ = w.after_;
        held = w.held;
        found = w.found;
        holding = w.holding;
        stored = sym (ap (λ (x : Registry). x.assignments) same) ∙ w.stored;
        same_id = w.same_id;
        new_assignee = w.new_assignee;
        new_previous = w.new_previous;
      }

  change_assignment-IsHandled :
      (kind : ChangeKind) (input : TransitionInput) (to : Option Participant) (r : Registry)
      → Returns (λ p. IsHandled kind input.assignment r p.0 p.1) (change_assignment kind input to r)
  unfolding change_assignment
  change_assignment-IsHandled kind input to r =
      >>=-Returns _ (read_instance r input.base.workspace input.base.work_instance) _ (λ i _.
        >>=-Returns _ (operation_id input.base.operation) _ (λ _ _.
          >>=-Returns _ (principal_id input.base.actor) _ (λ _ _.
            >>=-Returns _ (normalize_instant explicit_instant input.base.recorded_at) _ (λ _ _.
              >>=-Returns _ (version input.base.expected_version) _ (λ expected _.
                >>=-Returns _ (assignment_id input.assignment) _ (λ key key_eq.
                  >>=-Returns _
                    (namespaced (text "authorization reference") input.authorization_reference) _
                    (λ _ _. >>=-Returns _ (optional_participant to) _ (λ target _.
                      >>=-Returns _ (apply _ r) _ (λ s applied.
                        >>=-Returns _ (require (get key s.assignments) _) _ (λ a found.
                          ok-Returns _ (s, a)
                            (record {
                              change = _;
                              of_kind = refl;
                              key = key_eq;
                              step = apply-IsChanged _ expected _ r s refl applied;
                              result = require-ok _ _ a found;
                            })))))))))))

  -- The assignment that a call returns is the one that it stored.
  handled-after :
      (kind : ChangeKind) (name : Text) (r s : Registry) (a : Assignment)
      (w : IsHandled kind name r s a)
      → IsFiled r.assignments
      → w.step.after_ ≡ a
  handled-after kind name r s a w filed =
      let own = filed w.change.assignment_id w.step.before w.step.found in
      some-eq (
        sym (
          ap (get w.change.assignment_id) w.step.stored
          ∙ (ap (λ k. get w.change.assignment_id (set k w.step.after_ r.assignments)) own
              ∙ get-set_self w.change.assignment_id w.step.after_ r.assignments))
        ∙ w.result)

  assignment-get :
      (r : Registry) (workspace id : Text)
      → Returns
          (λ a. (k : Text) × (assignment_id id ≡ ok k) × (get k r.assignments ≡ some a))
          (assignment r workspace id)
  unfolding assignment
  assignment-get r workspace id = >>=-Returns _ (assignment_id id) _ (λ k key.
      >>=-Returns _ (require (get k r.assignments) _) _ (λ a found.
        >>=-Returns _ (workspace_id workspace) _ (λ expected _.
          >>=-Returns _ (assert_workspace a.workspace_id expected (text "assignment")) _
            (λ _ _. ok-Returns _ a (k, key, require-ok _ _ a found)))))

  -- When an assignment is handed off and the new assignee gives it back, the assignee is the one
  -- from before the hand-off, and the previous assignee the one who gave it back.
  pub give_back-hand_off :
      (r s t : Registry) (workspace : Text) (input input' : TransitionInput) (to : Participant)
      (before a b : Assignment)
      → Reachable r
      → assignment r workspace input.assignment ≡ ok before
      → hand_off_activity input to r ≡ ok (s, a)
      → input'.assignment ≡ input.assignment
      → give_back_activity input' s ≡ ok (t, b)
      → (b.assignee ≡ before.assignee) × (b.previous_assignee ≡ some a.assignee)
  unfolding hand_off_activity give_back_activity
  give_back-hand_off r s t workspace input input' to before a b reached read handed same_name
        given =
      let one =
        value-Returns _ (change_assignment handed_off input (some to) r) (s, a)
          (change_assignment-IsHandled handed_off input (some to) r) handed in
      let two =
        value-Returns _ (change_assignment given_back input' none s) (t, b)
          (change_assignment-IsHandled given_back input' none s) given in
      let filed = (reachable-IsTracked reached).filed in
      let filed' =
        (reachable-IsTracked
          (after reached (handling handed_off input (some to) a handed))).filed in
      let (k, key, found) =
        value-Returns _ (assignment r workspace input.assignment) before
          (assignment-get r workspace input.assignment) read in
      let stored = handled-after handed_off input.assignment r s a one filed in
      let stored' = handled-after given_back input'.assignment s t b two filed' in
      let same_key = ok-injective (sym one.key ∙ key) in
      let same_key' = ok-injective (sym two.key ∙ (ap assignment_id same_name ∙ one.key)) in
      let same_before =
        some-eq (sym one.step.found ∙ (ap (λ x. get x r.assignments) same_key ∙ found)) in
      let same_after =
        some-eq (sym two.step.found ∙ (ap (λ x. get x s.assignments) same_key' ∙ one.result)) in
      let handing =
        value-Returns _ (hold one.step.instance_ one.step.before one.change handed_off)
          one.step.held (hand-hold one.step.instance_ one.step.before one.change)
          (subst (λ c. hold one.step.instance_ one.step.before one.change c ≡ ok one.step.held)
            one.of_kind one.step.holding) in
      let held =
        value-Returns _ (hold two.step.instance_ two.step.before two.change given_back)
          two.step.held (back-hold two.step.instance_ two.step.before two.change)
          (subst (λ c. hold two.step.instance_ two.step.before two.change c ≡ ok two.step.held)
            two.of_kind two.step.holding) in
      let previous =
        ap (λ (x : Assignment). x.previous_assignee) (sym stored)
        ∙ (one.step.new_previous
            ∙ (handing ∙ ap (λ (x : Assignment). some x.assignee) same_before)) in
      (
        ap (λ (x : Assignment). x.assignee) (sym stored')
            ∙ (two.step.new_assignee
                ∙ some-eq (
                    sym held.0
                    ∙ (ap (λ (x : Assignment). x.previous_assignee) same_after ∙ previous))),
        ap (λ (x : Assignment). x.previous_assignee) (sym stored')
            ∙ (two.step.new_previous
                ∙ (held.1 ∙ ap (λ (x : Assignment). some x.assignee) same_after)),
      )
