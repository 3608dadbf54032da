-- ===== src/State/Projection/Stability.antt =====
-- packages/state/src/index.ts: records of a later transaction time leave past projections alone.
use mathlib.Core.List.{map-append}
use woyengi.Base.{
  none, some, List, [], ◌∷◌, ◌++◌, map, Text, text_discrete, Bool, true, false, ok, ◌≡◌, refl, sym,
  ap, ◌∙◌, arith, text_le, text_lt, text_lt-true, keep, Bool-cases, inl, inr, Host,
  normalize_instant, explicit_offset, >>=-eq-ok, All, is_some, subst, first, fun_ext,
}
use woyengi.Base.Dict.{get, set, member, values, get-set, set_new, member-add}
use woyengi.Base.Sort.{sort, sort-append, keep-insert-false}
use woyengi.Core.{
  ClaimRecord, LifecycleTransitionRecord, CanonicalRecord, a_claim, a_transition, LifecycleStatus,
  TimeInterval,
}
use woyengi.State.Ledger.{
  ClaimLedger, empty, append, append_lifecycle_transition, append_record, append_all, record_from,
  transitions_of,
}
use woyengi.State.Projection.{
  StateProjection, StateProjectionQuery, ProjectedClaim, contains, effective_lifecycle, history,
  known_claims, governing_claims, conflicts_with, project_at, projection_of, matches,
  lifecycle_history, compare_transaction_order, compare_lifecycle_transaction_order,
  compare_projection_priority, governs,
}

-- The id of every stored claim is among the ids that the ledger has recorded.
abbrev IsRecorded : ClaimLedger → Type 0
IsRecorded l = (id : Text) → is_some (get id l.claims_by_id) ≡ true → member id l.record_ids ≡ true

append_record-IsRecorded :
    (l l' : ClaimLedger) (r : CanonicalRecord)
    → append_record l r ≡ ok l'
    → IsRecorded l
    → IsRecorded l'
unfolding append_record append append_lifecycle_transition
append_record-IsRecorded l l' (a_claim c) h w id k =
    ground (arith, get-set c.id id c l.claims_by_id, member-add c.id id l.record_ids, w id)
append_record-IsRecorded l l' (a_transition t) h w id k =
    ground (arith, member-add t.id id l.record_ids, w id)

append_all-IsRecorded :
    (l l' : ClaimLedger) (rs : List CanonicalRecord)
    → append_all l rs ≡ ok l'
    → IsRecorded l
    → IsRecorded l'
unfolding append_all
append_all-IsRecorded l l' [] h w = let e : l ≡ l' = ground arith in subst IsRecorded e w
append_all-IsRecorded l l' (r ∷ rs) h w =
    let (m, e, k) = >>=-eq-ok (append_record l r) (λ x. append_all x rs) h in
    append_all-IsRecorded m l' rs k (append_record-IsRecorded l m r e w)

empty-IsRecorded : IsRecorded empty
unfolding empty get
empty-IsRecorded id k = cc

keep_snoc_false {ℓ} :
    {A : Type ℓ} (p : A → Bool) (xs : List A) (x : A)
    → p x ≡ false
    → keep p (xs ++ x ∷ []) ≡ keep p xs
unfolding keep
keep_snoc_false p [] x h = rw h
keep_snoc_false p (y ∷ ys) x h = ground (arith, keep_snoc_false p ys x h)

keep_snoc_true {ℓ} :
    {A : Type ℓ} (p : A → Bool) (xs : List A) (x : A)
    → p x ≡ true
    → keep p (xs ++ x ∷ []) ≡ keep p xs ++ x ∷ []
unfolding keep
keep_snoc_true p [] x h = rw h
keep_snoc_true p (y ∷ ys) x h = ground (arith, keep_snoc_true p ys x h)

not_known_before : (i : TimeInterval) (t : Text) → text_lt t i.from ≡ true → contains i t ≡ false
unfolding contains
not_known_before i t h = ground (arith, text_lt-true t i.from h)

module _ ⦃h : Host⦄ where
  -- Sorting and then keeping what passes is not changed by a last element that does not pass.
  keep-sort_snoc :
      (p q s : ClaimRecord → Bool) (xs : List ClaimRecord) (x : ClaimRecord)
      → p x ≡ false
      → keep p (sort compare_transaction_order (keep q (keep s (xs ++ x ∷ []))))
        ≡ keep p (sort compare_transaction_order (keep q (keep s xs)))
  keep-sort_snoc p q s xs x h = elim (Bool-cases (s x)) [
    | inr e ↦ rw (keep_snoc_false s xs x e)
    | inl e ↦ rw (keep_snoc_true s xs x e) (elim (Bool-cases (q x)) [
      | inr d ↦ rw (keep_snoc_false q (keep s xs) x d)
      | inl d ↦ rw (
        keep_snoc_true q (keep s xs) x d,
        sort-append compare_transaction_order (keep q (keep s xs)) x,
        keep-insert-false compare_transaction_order p x
            (sort compare_transaction_order (keep q (keep s xs))) h,
      )
    ])
  ]

  -- What a projection at `t` reads of a ledger.
  record SameAt (t : Text) (l l' : ClaimLedger) : Type 0 where
    same_known : (query : StateProjectionQuery) → known_claims l' query t ≡ known_claims l query t
    same_lifecycle :
        (claim : ClaimRecord) → effective_lifecycle l' claim t ≡ effective_lifecycle l claim t

  known_claims_later :
      (l l' : ClaimLedger) (c : ClaimRecord) (t : Text) (query : StateProjectionQuery)
      → values l'.claims_by_id ≡ values l.claims_by_id ++ c ∷ []
      → text_lt t c.transaction_time.from ≡ true
      → known_claims l' query t ≡ known_claims l query t
  unfolding known_claims history
  known_claims_later l l' c t query e later = rw e (
      keep-sort_snoc (λ x. contains x.transaction_time t)
        (λ x. matches (some query.predicate) x.predicate)
        (λ x. matches (some query.subject) x.subject) (values l.claims_by_id) c
        (not_known_before c.transaction_time t later))

  transitions_later :
      (xs : List LifecycleTransitionRecord) (x : LifecycleTransitionRecord) (t : Text)
      → text_lt t x.transaction_time.from ≡ true
      → keep
          (λ y. text_le y.transaction_time.from t)
          (sort compare_lifecycle_transaction_order (xs ++ x ∷ []))
        ≡ keep
            (λ y. text_le y.transaction_time.from t)
            (sort compare_lifecycle_transaction_order xs)
  transitions_later xs x t later = rw (sort-append compare_lifecycle_transaction_order xs x) (
      keep-insert-false compare_lifecycle_transaction_order (λ y. text_le y.transaction_time.from t)
        x (sort compare_lifecycle_transaction_order xs)
        (text_lt-true t x.transaction_time.from later))

  append_claim-SameAt :
      (l l' : ClaimLedger) (c : ClaimRecord) (t : Text)
      → IsRecorded l
      → append l c ≡ ok l'
      → text_lt t c.transaction_time.from ≡ true
      → SameAt t l l'
  unfolding append effective_lifecycle lifecycle_history
  append_claim-SameAt l l' c t w e later =
      let fresh : get c.id l.claims_by_id ≡ none = ground (arith, w c.id) in
      let stored : l'.claims_by_id ≡ set c.id c l.claims_by_id = ground arith in
      let transitions : l'.lifecycle_by_target ≡ l.lifecycle_by_target = ground arith in
      record {
        same_known = λ query.
            known_claims_later l l' c t query
              (ap values (stored ∙ set_new c.id c l.claims_by_id fresh)
                ∙ map-append (λ (x : Text × ClaimRecord). x.1) l.claims_by_id ((c.id, c) ∷ []))
              later;
        same_lifecycle = λ claim. rw transitions;
      }

  append_transition-SameAt :
      (l l' : ClaimLedger) (x : LifecycleTransitionRecord) (t : Text)
      → append_lifecycle_transition l x ≡ ok l'
      → text_lt t x.transaction_time.from ≡ true
      → SameAt t l l'
  unfolding append_lifecycle_transition effective_lifecycle lifecycle_history known_claims history
  append_transition-SameAt l l' x t e later =
      let stored : l'.lifecycle_by_target
          ≡ set x.target_id (transitions_of l x.target_id ++ x ∷ []) l.lifecycle_by_target =
        ground arith in
      let claims : l'.claims_by_id ≡ l.claims_by_id = ground arith in
      record {
        same_known = λ query. rw claims;
        same_lifecycle = λ claim. elim (text_discrete x.target_id claim.id) [
          | no n ↦
              let q : transitions_of l' claim.id ≡ transitions_of l claim.id = ground (
                arith,
                stored,
                get-set x.target_id claim.id (transitions_of l x.target_id ++ x ∷ [])
                    l.lifecycle_by_target,
              ) in
              rw q
          | yes y ↦
              let q : transitions_of l' claim.id ≡ transitions_of l claim.id ++ x ∷ [] = ground (
                arith,
                stored,
                get-set x.target_id claim.id (transitions_of l x.target_id ++ x ∷ [])
                    l.lifecycle_by_target,
              ) in
              rw (q, transitions_later (transitions_of l claim.id) x t later)
        ];
      }

  append_record-SameAt :
      (l l' : ClaimLedger) (r : CanonicalRecord) (t : Text)
      → IsRecorded l
      → append_record l r ≡ ok l'
      → text_lt t (record_from r) ≡ true
      → SameAt t l l'
  unfolding append_record
  append_record-SameAt l l' (a_claim c) t w e later = append_claim-SameAt l l' c t w e later
  append_record-SameAt l l' (a_transition x) t w e later = append_transition-SameAt l l' x t e later

  append_all-SameAt :
      (l l' : ClaimLedger) (rs : List CanonicalRecord) (t : Text)
      → IsRecorded l
      → append_all l rs ≡ ok l'
      → All (λ r. text_lt t (record_from r) ≡ true) rs
      → SameAt t l l'
  unfolding append_all
  append_all-SameAt l l' [] t w e later =
      let q : l ≡ l' = ground arith in
      subst (SameAt t l) q (record { same_known = λ query. refl; same_lifecycle = λ claim. refl })
  append_all-SameAt l l' (r ∷ rs) t w e (now, later) =
      let (m, first_step, rest) = >>=-eq-ok (append_record l r) (λ x. append_all x rs) e in
      let one = append_record-SameAt l m r t w first_step now in
      let more =
        append_all-SameAt m l' rs t (append_record-IsRecorded l m r first_step w) rest later in
      record {
        same_known = λ query. more.same_known query ∙ one.same_known query;
        same_lifecycle = λ claim. more.same_lifecycle claim ∙ one.same_lifecycle claim;
      }

  abbrev ranked_by : Text → (ClaimRecord → LifecycleStatus) → List ClaimRecord → List ProjectedClaim
  ranked_by valid_at f known = sort compare_projection_priority (
      keep (λ c. governs c.effective_lifecycle)
        (map (λ c. record { claim = c; effective_lifecycle = f c })
          (keep (λ c. contains c.valid_time valid_at) known)))

  SameAt-governing :
      (l l' : ClaimLedger) (query : StateProjectionQuery) (valid_at t : Text)
      → SameAt t l l'
      → governing_claims l' query valid_at t ≡ governing_claims l query valid_at t
  unfolding governing_claims
  SameAt-governing l l' query valid_at t s =
      ap (λ f. ranked_by valid_at f (known_claims l' query t)) (fun_ext s.same_lifecycle)
      ∙ ap (λ known. ranked_by valid_at (λ c. effective_lifecycle l c t) known) (s.same_known query)

  project_at-projection_of :
      (l : ClaimLedger) (query : StateProjectionQuery) (valid_at t : Text) (p : StateProjection)
      → normalize_instant explicit_offset query.valid_at ≡ ok valid_at
      → normalize_instant explicit_offset query.recorded_at ≡ ok t
      → project_at l query ≡ ok p
      → p ≡ projection_of l query valid_at t
  unfolding project_at
  project_at-projection_of l query valid_at t p e1 e2 h = ground arith

  -- The past cannot be rewritten: however many claims and lifecycle transitions are appended to a
  -- ledger, if their transaction times are all later than the instant at which a projection asks
  -- what was recorded, the projection selects the same claim as before, among the same candidates
  -- and with the same conflicts.
  pub project_at-append_later :
      (rs later : List CanonicalRecord) (l l' : ClaimLedger)
      → append_all empty rs ≡ ok l
      → append_all l later ≡ ok l'
      → (query : StateProjectionQuery) (valid_at t : Text)
      → normalize_instant explicit_offset query.valid_at ≡ ok valid_at
      → normalize_instant explicit_offset query.recorded_at ≡ ok t
      → All (λ r. text_lt t (record_from r) ≡ true) later
      → (p p' : StateProjection) → project_at l query ≡ ok p
      → project_at l' query ≡ ok p'
      → (p'.selected ≡ p.selected) × (p'.candidates ≡ p.candidates) × (p'.conflicts ≡ p.conflicts)
  unfolding projection_of
  project_at-append_later rs later l l' built grown query valid_at t e1 e2 after p p' h h' =
      let w = append_all-IsRecorded empty l rs built empty-IsRecorded in
      let g : governing_claims l' query valid_at t ≡ governing_claims l query valid_at t =
        SameAt-governing l l' query valid_at t (append_all-SameAt l l' later t w grown after) in
      let q = project_at-projection_of l query valid_at t p e1 e2 h in
      let q' = project_at-projection_of l' query valid_at t p' e1 e2 h' in
      (
        ap (λ (x : StateProjection). x.selected) q'
            ∙ ap first g
            ∙ sym (ap (λ (x : StateProjection). x.selected) q),
        ap (λ (x : StateProjection). x.candidates) q'
            ∙ g
            ∙ sym (ap (λ (x : StateProjection). x.candidates) q),
        ap (λ (x : StateProjection). x.conflicts) q'
            ∙ ap (λ gs. conflicts_with (first gs) gs) g
            ∙ sym (ap (λ (x : StateProjection). x.conflicts) q),
      )
