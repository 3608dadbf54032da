-- ===== src/Work/Staleness.antt =====
-- packages/work/src/index.ts: the expected version guards an instance against a lost update.
use woyengi.Base.{ℕ, suc, some, ok, ◌≡◌, ◌≢◌, sym, ap, subst, ◌∙◌, arith, >>=-eq-ok, Host}
use woyengi.Base.Dict.{get, set, get-set_self}
use woyengi.Work.Records.{WorkInstance, WorkOperation, WorkChange, changing}
use woyengi.Work.Inputs.{assert_participant}
use woyengi.Work.Registry.{Registry}
use woyengi.Work.Applying.{apply, apply_body, assert_expected_version}
use woyengi.Work.Advancing.{IsAdvanced, apply_change-IsAdvanced}
use woyengi.Work.Numbering.{apply-ok, assert_expected_version-ok, register-instances, some-eq}
use woyengi.Work.Histories.{Reachable, reachable-IsTracked}

module _ ⦃h : Host⦄ where
  -- What `#apply` found out about a change that it accepted.
  record IsAccepted (op : WorkOperation) (v : ℕ) (r t : Registry) : Type 0 where
    before : WorkInstance
    found : get op.work_instance_id r.instances ≡ some before
    expected : v ≡ before.version
    advanced : IsAdvanced before r t

  accepted :
      (op : WorkOperation) (v : ℕ) (c : WorkChange) (r t : Registry)
      → apply_body op (changing v c) r ≡ ok t
      → IsAccepted op v r t
  unfolding apply_body
  accepted op v c r t e =
      let (i, asserted, e1) = >>=-eq-ok (assert_expected_version op v r) _ e in
      let (_, _, e2) = >>=-eq-ok (assert_participant i.participants op.actor_principal_id) _ e1 in
      let (found, expected) = assert_expected_version-ok op v r i asserted in
      record {
        before = i;
        found = found;
        expected = expected;
        advanced = apply_change-IsAdvanced i op c r t e2;
      }

  -- When a change of an instance was accepted, on a registry that the methods can reach, another
  -- change of that instance which expects the same version is refused, whatever it does.
  pub apply-stale :
      (r s t : Registry) (op op' : WorkOperation) (v : ℕ) (c c' : WorkChange)
      → Reachable r
      → op.body ≡ changing v c
      → apply op r ≡ ok s
      → op'.body ≡ changing v c'
      → op'.work_instance_id ≡ op.work_instance_id
      → apply op' s ≢ ok t
  apply-stale r s t op op' v c c' reached first applied second same applied' =
      let (r1, b, e) = apply-ok op r s applied in
      let (s1, b', _) = apply-ok op' s t applied' in
      let one = accepted op v c r r1 (subst (λ x. apply_body op x r ≡ ok r1) first b) in
      let two = accepted op' v c' s s1 (subst (λ x. apply_body op' x s ≡ ok s1) second b') in
      let own =
        ((reachable-IsTracked reached).known op.work_instance_id one.before one.found).same_id in
      let stored = ap (get op.work_instance_id) (
        sym (ap (λ (x : Registry). x.instances) e)
        ∙ (register-instances op r1 ∙ one.advanced.stored)) in
      let now =
        stored
        ∙ (ap (λ k. get op.work_instance_id (set k one.advanced.next r.instances)) own
            ∙ get-set_self op.work_instance_id one.advanced.next r.instances) in
      let later =
        some-eq (sym (subst (λ k. get k s.instances ≡ some two.before) same two.found) ∙ now) in
      let loop : v ≡ suc v =
        two.expected
        ∙ (ap (λ (i : WorkInstance). i.version) later
            ∙ (one.advanced.later ∙ ap suc (sym one.expected))) in
      absurd (omega (arith, loop))
