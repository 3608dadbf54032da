-- ===== src/Work/Advancing.antt =====
-- packages/work/src/index.ts: what every operation on an instance does to it.
use woyengi.Base.{
  suc, some, Text, text, not, ◌&&◌, ok, ◌≡◌, refl, sym, ap, subst, ◌∙◌, text_discrete, >>=-eq-ok,
  throw_if->>-eq-ok, ok-injective, same, any,
}
use woyengi.Base.Dict.{Dict, get, set, has, get-set_self, get-set_ne}
use woyengi.Work.Records.{
  WorkOutcome, WorkInstance, WorkEpisode, Activity, Assignment, AssignmentChange, WorkChange,
  episode_started, activity_added, activity_assigned, assignment_changed, outcome_recorded,
  WorkOperation,
}
use woyengi.Work.Inputs.{assert_participant}
use woyengi.Work.Registry.{
  Registry, assert_scope, assert_participant_reference, require, activity_of, episode_of,
  apply_episode, apply_activity, apply_assignment, apply_outcome,
}
use woyengi.Work.Changes.{apply_assignment_change, hold, is_taken_over, found_activity}
use woyengi.Work.Applying.{apply_change}

some-eq : {A : Type 0} {a b : A} → some a ≡ some b → a ≡ b
some-eq h = cc

-- Every assignment stands under its own id.
abbrev pub IsFiled : Dict Assignment → Type 0
IsFiled d = (k : Text) (a : Assignment) → get k d ≡ some a → a.id ≡ k

set-IsFiled : (a : Assignment) (d : Dict Assignment) → IsFiled d → IsFiled (set a.id a d)
set-IsFiled a d filed k b g = elim (text_discrete a.id k) [
  | yes e ↦
      let at = subst (λ x. get x (set a.id a d) ≡ some b) (sym e) g in
      ap (λ (x : Assignment). x.id) (some-eq (sym at ∙ get-set_self a.id a d)) ∙ e
  | no n ↦ filed k b (sym (get-set_ne a.id k a d n) ∙ g)
]

-- The instance is stored a version later, with its id and participants, and nothing is entered.
pub record IsAdvanced (i : WorkInstance) (r s : Registry) : Type 0 where
  pub next : WorkInstance
  pub stored : s.instances ≡ set i.id next r.instances
  pub same_id : next.id ≡ i.id
  pub later : next.version ≡ suc i.version
  pub same_participants : next.participants ≡ i.participants
  pub same_streams : s.streams ≡ r.streams
  pub files : IsFiled r.assignments → IsFiled s.assignments

apply_episode-IsAdvanced :
    (i : WorkInstance) (e : WorkEpisode) (r s : Registry)
    → apply_episode i e r ≡ ok s
    → IsAdvanced i r s
unfolding apply_episode
apply_episode-IsAdvanced i e r s h =
    let (_, h1) = throw_if->>-eq-ok (has e.id r.episodes) _ _ _ h in
    let (_, _, h2) = >>=-eq-ok (assert_participant i.participants e.started_by_principal_id) _ h1 in
    let (_, _, h3) =
      >>=-eq-ok (assert_scope e.workspace_id e.work_instance_id i (text "work episode")) _ h2 in
    subst (λ x. IsAdvanced i r x) (ok-injective h3)
      (record {
        next = _;
        stored = refl;
        same_id = refl;
        later = refl;
        same_participants = refl;
        same_streams = refl;
        files = λ f. f;
      })

apply_activity-IsAdvanced :
    (i : WorkInstance) (a : Activity) (r s : Registry)
    → apply_activity i a r ≡ ok s
    → IsAdvanced i r s
unfolding apply_activity
apply_activity-IsAdvanced i a r s h =
    let (_, h1) = throw_if->>-eq-ok (has a.id r.activities) _ _ _ h in
    let (_, _, h2) = >>=-eq-ok (assert_participant i.participants a.created_by_principal_id) _ h1 in
    let (_, _, h3) =
      >>=-eq-ok (assert_scope a.workspace_id a.work_instance_id i (text "activity")) _ h2 in
    let (_, h4) =
      throw_if->>-eq-ok (not (episode_of i (get a.work_episode_id r.episodes))) _ _ _ h3 in
    subst (λ x. IsAdvanced i r x) (ok-injective h4)
      (record {
        next = _;
        stored = refl;
        same_id = refl;
        later = refl;
        same_participants = refl;
        same_streams = refl;
        files = λ f. f;
      })

apply_assignment-IsAdvanced :
    (i : WorkInstance) (a : Assignment) (r s : Registry)
    → apply_assignment i a r ≡ ok s
    → IsAdvanced i r s
unfolding apply_assignment
apply_assignment-IsAdvanced i a r s h =
    let (_, h1) = throw_if->>-eq-ok (has a.id r.assignments) _ _ _ h in
    let (_, _, h2) =
      >>=-eq-ok (assert_scope a.workspace_id a.work_instance_id i (text "assignment")) _ h1 in
    let (_, _, h3) = >>=-eq-ok (assert_participant_reference i a.assignee) _ h2 in
    let (_, _, h4) = >>=-eq-ok (activity_of i (get a.activity_id r.activities) _) _ h3 in
    subst (λ x. IsAdvanced i r x) (ok-injective h4)
      (record {
        next = _;
        stored = refl;
        same_id = refl;
        later = refl;
        same_participants = refl;
        same_streams = refl;
        files = set-IsFiled a r.assignments;
      })

apply_outcome-IsAdvanced :
    (i : WorkInstance) (o : WorkOutcome) (r s : Registry)
    → apply_outcome i o r ≡ ok s
    → IsAdvanced i r s
unfolding apply_outcome
apply_outcome-IsAdvanced i o r s h =
    let (_, h1) =
      throw_if->>-eq-ok (any (λ (x : WorkOutcome). same x.id o.id) i.outcomes) _ _ _ h in
    let (_, _, h2) =
      >>=-eq-ok (assert_participant i.participants o.recorded_by_principal_id) _ h1 in
    subst (λ x. IsAdvanced i r x) (ok-injective h2)
      (record {
        next = _;
        stored = refl;
        same_id = refl;
        later = refl;
        same_participants = refl;
        same_streams = refl;
        files = λ f. f;
      })

apply_assignment_change-IsAdvanced :
    (i : WorkInstance) (op : WorkOperation) (c : AssignmentChange) (r s : Registry)
    → apply_assignment_change i op c r ≡ ok s
    → IsAdvanced i r s
unfolding apply_assignment_change
apply_assignment_change-IsAdvanced i op c r s h =
    let (a, _, h1) = >>=-eq-ok (require (get c.assignment_id r.assignments) _) _ h in
    let (_, _, h2) =
      >>=-eq-ok (assert_scope a.workspace_id a.work_instance_id i (text "assignment")) _ h1 in
    let (_, h3) =
      throw_if->>-eq-ok
        (not (is_taken_over c.kind) && not (same a.assignee.principal_id op.actor_principal_id)) _ _
        _ h2 in
    let (held, _, h4) = >>=-eq-ok (hold i a c c.kind) _ h3 in
    let (_, _, h5) = >>=-eq-ok (found_activity (get a.activity_id r.activities)) _ h4 in
    subst (λ x. IsAdvanced i r x) (ok-injective h5)
      (record {
        next = _;
        stored = refl;
        same_id = refl;
        later = refl;
        same_participants = refl;
        same_streams = refl;
        files = set-IsFiled _ r.assignments;
      })

pub apply_change-IsAdvanced :
    (i : WorkInstance) (op : WorkOperation) (c : WorkChange) (r s : Registry)
    → apply_change i op c r ≡ ok s
    → IsAdvanced i r s
unfolding apply_change
apply_change-IsAdvanced i op (episode_started e) r s h = apply_episode-IsAdvanced i e r s h
apply_change-IsAdvanced i op (activity_added a) r s h = apply_activity-IsAdvanced i a r s h
apply_change-IsAdvanced i op (activity_assigned a) r s h = apply_assignment-IsAdvanced i a r s h
apply_change-IsAdvanced i op (assignment_changed c) r s h =
    apply_assignment_change-IsAdvanced i op c r s h
apply_change-IsAdvanced i op (outcome_recorded o) r s h = apply_outcome-IsAdvanced i o r s h
