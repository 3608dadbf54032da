-- ===== src/Work/Reading.antt =====
-- packages/work/src/index.ts: the methods that read a registry, and `replay`.
use woyengi.Base.{
  compare, Ordering, Option, none, some, List, [], ◌∷◌, ◌++◌, Text, text, Result, ok, ◌>>=◌, ◌>>◌,
  Host, or_default,
}
use woyengi.Base.Dict.{get}
use woyengi.Base.Sort.{sort}
use woyengi.Base.Texts.{or_else}
use woyengi.Work.Records.{
  WorkInstance, WorkEpisode, Activity, Assignment, WorkActivityEntry, WorkOperation,
}
use woyengi.Work.Inputs.{assignment_id, workspace_id}
use woyengi.Work.Registry.{no_work, Registry, require, assert_workspace}
use woyengi.Work.Applying.{apply, read_instance}

module _ ⦃h : Host⦄ where
  abbrev pub work_instance : Registry → Text → Text → Result WorkInstance
  work_instance r workspace id = read_instance r workspace id

  -- What the ids of an instance stand for; every id is there.
  abbrev found_all : {A : Type 0} → (Text → Option A) → List Text → List A
  found_all look [] = []
  found_all look (id ∷ ids) = elim (look id) [
    | none ↦ found_all look ids
    | some a ↦ a ∷ found_all look ids
  ]

  abbrev pub episodes_for : Registry → Text → Text → Result (List WorkEpisode)
  episodes_for r workspace id = do
    i ← read_instance r workspace id
    ok (found_all (λ e. get e r.episodes) i.episode_ids)

  abbrev pub activities_for : Registry → Text → Text → Result (List Activity)
  activities_for r workspace id = do
    i ← read_instance r workspace id
    ok (found_all (λ a. get a r.activities) i.activity_ids)

  unfoldable pub assignment : Registry → Text → Text → Result Assignment
  unfolding assert_workspace
  assignment r workspace id = do
    key ← assignment_id id
    a ← require (get key r.assignments) (text "assignment does not exist: " ++ key)
    expected ← workspace_id workspace
    assert_workspace a.workspace_id expected (text "assignment")
    ok a

  unfoldable pub activity_stream : Registry → Text → Text → Result (List WorkActivityEntry)
  activity_stream r workspace id = do
    i ← read_instance r workspace id
    ok (or_default (get i.id r.streams) [])

  abbrev compare_operations : WorkOperation → WorkOperation → Ordering
  compare_operations left right =
      or_else (h.locale_compare left.workspace_id right.workspace_id)
        (compare left.ledger_sequence right.ledger_sequence)

  unfoldable pub history : Registry → List WorkOperation
  history r = sort compare_operations r.operations

  unfoldable pub apply_all : List WorkOperation → Registry → Result Registry
  apply_all [] r = ok r
  apply_all (op ∷ ops) r = do s ← apply op r; apply_all ops s

  unfoldable pub replay : List WorkOperation → Result Registry
  unfolding apply_all
  replay operations = apply_all (sort compare_operations operations) no_work
