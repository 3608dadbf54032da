-- ===== src/Work/Numbering.antt =====
-- packages/work/src/index.ts: an instance's version counts the entries of its activity stream.
use woyengi.Base.{
  ℕ, suc, Option, none, some, List, [], ◌∷◌, ◌++◌, Text, text, false, not, ◌==◌, ok, ◌≡◌, ◌≢◌, refl,
  sym, ap, subst, ◌∙◌, arith, >>=-eq-ok, throw_if->>-eq-ok, ok-injective, is_some, Host, length,
  length-append, or_default, text_discrete,
}
use woyengi.Base.Dict.{get, set, get-set_self, get-set_ne, member}
use woyengi.Base.Numbered.{IsNumbered, append-IsNumbered}
use woyengi.Work.Records.{
  WorkInstance, WorkActivityEntry, WorkOperation, WorkBody, instance_created, changing,
}
use woyengi.Work.Inputs.{assert_participant}
use woyengi.Work.Registry.{Registry, require, assert_workspace}
use woyengi.Work.Applying.{
  apply, apply_body, assert_expected_version, register_operation, append_activity_entry, entry_of,
  validate_operation, sequence_key,
}
use woyengi.Work.Advancing.{IsFiled, apply_change-IsAdvanced}

abbrev pub stream_of : Registry → Text → List WorkActivityEntry
stream_of r k = or_default (get k r.streams) []

abbrev pub sequence_of : WorkActivityEntry → ℕ
sequence_of e = e.sequence

-- The instance under a key: it has the key as its id, and its version counts its stream.
pub record IsTrackedAt (r : Registry) (k : Text) (i : WorkInstance) : Type 0 where
  pub same_id : i.id ≡ k
  pub counted : i.version ≡ length (stream_of r k)
  pub numbered : IsNumbered sequence_of 0 (stream_of r k)

pub record IsTracked (r : Registry) : Type 0 where
  pub known : (k : Text) (i : WorkInstance) → get k r.instances ≡ some i → IsTrackedAt r k i
  pub unknown : (k : Text) → get k r.instances ≡ none → get k r.streams ≡ none
  pub filed : IsFiled r.assignments

-- What `apply` asks of an operation that its methods give: an instance is created under its own id
-- at the first version.
abbrev pub IsProper : Text → WorkBody → Type 0
IsProper key (instance_created i) = (i.id ≡ key) × (i.version ≡ 1)
IsProper key (changing v c) = Unit

none-some : {A B : Type 0} {a : A} → none ≡ some a → B
none-some h = absurd (cc)

not_there : {A : Type 0} (o : Option A) → is_some o ≡ false → o ≡ none
not_there none h = refl
not_there (some a) h = absurd (cc)

pub some-eq : {A : Type 0} {a b : A} → some a ≡ some b → a ≡ b
some-eq h = cc

matched : (a b : ℕ) → not (a == b) ≡ false → a ≡ b
matched a b h = ground arith

pub require-ok : {A : Type 0} (o : Option A) (m : Text) (a : A) → require o m ≡ ok a → o ≡ some a
require-ok none m a h = absurd (cc)
require-ok (some b) m a h = ap some (ok-injective h)

module _ ⦃h : Host⦄ where
  pub apply-ok :
      (op : WorkOperation) (r s : Registry)
      → apply op r ≡ ok s
      → (t : Registry) × (apply_body op op.body r ≡ ok t) × (register_operation op t ≡ s)
  unfolding apply
  apply-ok op r s e =
      let (_, _, e1) = >>=-eq-ok (validate_operation op) _ e in
      let (_, e2) = throw_if->>-eq-ok (member op.id r.operation_ids) _ _ _ e1 in
      let (_, e3) = throw_if->>-eq-ok (member (sequence_key op) r.ledger_sequences) _ _ _ e2 in
      let (t, b, e4) = >>=-eq-ok (apply_body op op.body r) _ e3 in (t, b, ok-injective e4)

  pub assert_expected_version-ok :
      (op : WorkOperation) (v : ℕ) (r : Registry) (i : WorkInstance)
      → assert_expected_version op v r ≡ ok i
      → (get op.work_instance_id r.instances ≡ some i) × (v ≡ i.version)
  unfolding assert_expected_version
  assert_expected_version-ok op v r i e =
      let (j, g, e1) = >>=-eq-ok (require (get op.work_instance_id r.instances) _) _ e in
      let (_, _, e2) =
        >>=-eq-ok (assert_workspace j.workspace_id op.workspace_id (text "work instance")) _ e1 in
      let (same_version, e3) = throw_if->>-eq-ok (not (v == j.version)) _ _ _ e2 in
      let k = ok-injective e3 in
      (require-ok _ _ j g ∙ ap some k, matched v j.version same_version ∙ ap (λ x. x.version) k)

  -- The stream of an operation's instance gets its entry, and the others stay.
  register-stream :
      (op : WorkOperation) (t : Registry)
      → stream_of (register_operation op t) op.work_instance_id
        ≡ stream_of t op.work_instance_id
          ++ entry_of op (suc (length (stream_of t op.work_instance_id))) ∷ []
  unfolding register_operation append_activity_entry
  register-stream op t = ap (λ o. or_default o []) (get-set_self op.work_instance_id _ t.streams)

  register-stream_ne :
      (op : WorkOperation) (t : Registry) (k : Text)
      → op.work_instance_id ≢ k
      → get k (register_operation op t).streams ≡ get k t.streams
  unfolding register_operation append_activity_entry
  register-stream_ne op t k n = get-set_ne op.work_instance_id k _ t.streams n

  pub register-instances :
      (op : WorkOperation) (t : Registry) → (register_operation op t).instances ≡ t.instances
  unfolding register_operation append_activity_entry
  register-instances op t = refl

  -- The instance of the operation after it.
  advanced-IsTrackedAt :
      (op : WorkOperation) (t : Registry) (j : WorkInstance)
      → j.id ≡ op.work_instance_id
      → j.version ≡ suc (length (stream_of t op.work_instance_id))
      → IsNumbered sequence_of 0 (stream_of t op.work_instance_id)
      → IsTrackedAt (register_operation op t) op.work_instance_id j
  unfolding entry_of
  advanced-IsTrackedAt op t j same counted numbered =
      let stream = stream_of t op.work_instance_id in
      let entry = entry_of op (suc (length stream)) in
      record {
        same_id = same;
        counted =
            counted
            ∙ sym (
                ap length (register-stream op t)
                ∙ (length-append stream (entry ∷ []) ∙ omega arith));
        numbered =
            subst (IsNumbered sequence_of 0) (sym (register-stream op t))
              (append-IsNumbered sequence_of 0 stream entry numbered (omega arith));
      }

  -- An instance of another operation's instance.
  other-IsTrackedAt :
      (op : WorkOperation) (t : Registry) (k : Text) (i : WorkInstance)
      → op.work_instance_id ≢ k
      → IsTrackedAt t k i
      → IsTrackedAt (register_operation op t) k i
  other-IsTrackedAt op t k i n w =
      let same = ap (λ o. or_default o []) (register-stream_ne op t k n) in
      record {
        same_id = w.same_id;
        counted = w.counted ∙ sym (ap length same);
        numbered = subst (IsNumbered sequence_of 0) (sym same) w.numbered;
      }

  -- The registry after an operation that stored its instance.
  registered-IsTracked :
      (op : WorkOperation) (r t : Registry) (j : WorkInstance)
      → IsTracked r
      → t.instances ≡ set op.work_instance_id j r.instances
      → t.streams ≡ r.streams
      → j.id ≡ op.work_instance_id
      → j.version ≡ suc (length (stream_of t op.work_instance_id))
      → IsNumbered sequence_of 0 (stream_of t op.work_instance_id)
      → IsFiled t.assignments
      → IsTracked (register_operation op t)
  unfolding register_operation append_activity_entry
  registered-IsTracked op r t j w stored streams same counted numbered filed =
      let key = op.work_instance_id in
      let instances = register-instances op t ∙ stored in
      record {
        known = λ k i g. elim (text_discrete key k) [
          | yes e ↦
              let at = subst (λ x. get x (register_operation op t).instances ≡ some i) (sym e) g in
              let found =
                sym (get-set_self key j r.instances) ∙ (sym (ap (get key) instances) ∙ at) in
              subst (λ x. IsTrackedAt (register_operation op t) x i) e
                (subst (IsTrackedAt (register_operation op t) key) (some-eq found)
                  (advanced-IsTrackedAt op t j same counted numbered))
          | no n ↦
              let at = sym (get-set_ne key k j r.instances n) ∙ (sym (ap (get k) instances) ∙ g) in
              let before = w.known k i at in
              let kept = ap (λ m. or_default (get k m) []) streams in
              other-IsTrackedAt op t k i n (record {
                same_id = before.same_id;
                counted = before.counted ∙ sym (ap length kept);
                numbered = subst (IsNumbered sequence_of 0) (sym kept) before.numbered;
              })
        ];
        unknown = λ k g. elim (text_discrete key k) [
          | yes e ↦ none-some (
              sym (subst (λ x. get x (register_operation op t).instances ≡ none) (sym e) g)
              ∙ (ap (get key) instances ∙ get-set_self key j r.instances))
          | no n ↦
              register-stream_ne op t k n
              ∙ (ap (get k) streams
                  ∙ w.unknown k
                      (sym (get-set_ne key k j r.instances n) ∙ (sym (ap (get k) instances) ∙ g)))
        ];
        filed = filed;
      }

  apply_body-IsTracked :
      (op : WorkOperation) (body : WorkBody) (r t : Registry)
      → IsProper op.work_instance_id body
      → IsTracked r
      → apply_body op body r ≡ ok t
      → IsTracked (register_operation op t)
  unfolding apply_body
  apply_body-IsTracked op (instance_created i) r t (same, first) w e =
      let (absent, e1) =
        throw_if->>-eq-ok (is_some (get op.work_instance_id r.instances)) _ _ _ e in
      let blank = w.unknown op.work_instance_id (not_there _ absent) in
      let empty = ap (λ o. or_default o []) blank in
      subst (λ x. IsTracked (register_operation op x)) (ok-injective e1)
        (registered-IsTracked op r _ i w refl refl same
          (first ∙ sym (ap (λ x. suc (length x)) empty))
          (subst (IsNumbered sequence_of 0) (sym empty) tt) w.filed)
  apply_body-IsTracked op (changing v change) r t _ w e =
      let (i, expected, e1) = >>=-eq-ok (assert_expected_version op v r) _ e in
      let (_, _, e2) = >>=-eq-ok (assert_participant i.participants op.actor_principal_id) _ e1 in
      let (found, _) = assert_expected_version-ok op v r i expected in
      let before = w.known op.work_instance_id i found in
      let step = apply_change-IsAdvanced i op change r t e2 in
      let kept = ap (λ m. or_default (get op.work_instance_id m) []) step.same_streams in
      registered-IsTracked op r t step.next w
        (subst (λ x. t.instances ≡ set x step.next r.instances) before.same_id step.stored)
        step.same_streams (step.same_id ∙ before.same_id)
        (step.later ∙ ap suc (before.counted ∙ sym (ap length kept)))
        (subst (IsNumbered sequence_of 0) (sym kept) before.numbered) (step.files w.filed)

  pub apply-IsTracked :
      (op : WorkOperation) (r s : Registry)
      → IsProper op.work_instance_id op.body
      → IsTracked r
      → apply op r ≡ ok s
      → IsTracked s
  apply-IsTracked op r s p w e =
      let (t, b, same) = apply-ok op r s e in
      subst IsTracked same (apply_body-IsTracked op op.body r t p w b)
