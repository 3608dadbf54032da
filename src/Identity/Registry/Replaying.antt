-- ===== src/Identity/Registry/Replaying.antt =====
-- packages/identity/src/index.ts: the operations that a registry has accepted, and `replay`.
use mathlib.Core.List.{append-nil, append_assoc, map-append}
use woyengi.Base.{
  none, List, [], ◌∷◌, ◌++◌, map, Text, true, false, ok, ◌≡◌, refl, sym, ◌∙◌, ap, arith, Host,
  Distinct, Distinct-snoc, Result-cases, inl, inr, >>=-eq-ok, keep, IsConsistent, subst,
}
use woyengi.Base.Compare.{lexicographic, by_key}
use woyengi.Base.Dict.{member, add, member_of_In}
use woyengi.Base.Sort.{sort, sort-Sorted, sort-Sorted', IsComparator}
use woyengi.Identity.Operations.{
  Operation, entity_created, alias_added, match_proposed, entities_merged, entity_split, base_of,
  compare_operations,
}
use woyengi.Identity.Registry.{
  Registry, empty, apply, apply_all, replay, history, dispatch, canonical,
}

abbrev pub ids : List Operation → List Text
ids = map (λ o. (base_of o).id)

-- The recorded ids are those of the recorded operations, and no two are equal.
record IsRecorded (r : Registry) : Type 0 where
  same_ids : r.operation_ids ≡ ids r.operations
  once : Distinct (ids r.operations)

dispatch-records :
    (r r' : Registry) (o : Operation)
    → dispatch r o ≡ ok r'
    → (r'.operations ≡ r.operations) × (r'.operation_ids ≡ r.operation_ids)
unfolding dispatch
dispatch-records r r' (entity_created b e) h = ground arith
dispatch-records r r' (alias_added b e a k) h = ground arith
dispatch-records r r' (match_proposed b left right s t) h = ground arith
dispatch-records r r' (entities_merged b c m p a) h =
    elim (Result-cases (canonical r.merged_into c)) [
      | inr (e, t, bad) ↦ absurd (ground arith)
      | inl (rc, ec) ↦ elim (Result-cases (canonical r.merged_into m)) [
        | inr (e, t, bad) ↦ absurd (ground arith)
        | inl (rm, em) ↦ ground arith
      ]
    ]
dispatch-records r r' (entity_split b e a) h = ground arith

-- A successful operation has a new id, and is recorded behind the others.
apply-records :
    (r r' : Registry) (o : Operation)
    → apply r o ≡ ok r'
    → (member (base_of o).id r.operation_ids ≡ false)
      × (r'.operations ≡ r.operations ++ o ∷ [])
      × (r'.operation_ids ≡ r.operation_ids ++ (base_of o).id ∷ [])
unfolding apply add
apply-records r r' o h = elim (Result-cases (dispatch r o)) [
  | inr (c, t, e) ↦ absurd (ground arith)
  | inl (r1, e) ↦
      let (p, q) = dispatch-records r r1 o e in (ground arith, ground arith, ground arith)
]

apply-IsRecorded :
    (r r' : Registry) (o : Operation) → apply r o ≡ ok r' → IsRecorded r → IsRecorded r'
apply-IsRecorded r r' o h w =
    let (new, p, q) = apply-records r r' o h in
    record {
      same_ids =
          q
          ∙ rw (w.same_ids, p)
              (sym (map-append (λ (x : Operation). (base_of x).id) r.operations (o ∷ [])));
      once =
          rw (p, map-append (λ (x : Operation). (base_of x).id) r.operations (o ∷ []))
            (Distinct-snoc (ids r.operations) (base_of o).id w.once
              (λ i. cc (new, w.same_ids, member_of_In (base_of o).id (ids r.operations) i)));
    }

apply_all-records :
    (r r' : Registry) (os : List Operation)
    → apply_all r os ≡ ok r'
    → IsRecorded r
    → IsRecorded r' × (r'.operations ≡ r.operations ++ os)
unfolding apply_all
apply_all-records r r' [] h w =
    let e : r ≡ r' = ground arith in (subst IsRecorded e w, ground (arith, append-nil r.operations))
apply_all-records r r' (o ∷ os) h w =
    let (r1, e, k) = >>=-eq-ok (apply r o) (λ x. apply_all x os) h in
    let (v, q) = apply_all-records r1 r' os k (apply-IsRecorded r r1 o e w) in
    let (new, p, ids') = apply-records r r1 o e in
    (v, q ∙ rw p (append_assoc r.operations (o ∷ []) os))

-- Operations that a registry accepts have pairwise distinct ids; it records exactly them, in the
-- order in which they were applied, and their ids.
pub apply_all-recorded :
    (os : List Operation) (r : Registry)
    → apply_all empty os ≡ ok r
    → (r.operations ≡ os) × Distinct (ids os) × (r.operation_ids ≡ ids os)
unfolding empty
apply_all-recorded os r h =
    let (w, e) = apply_all-records empty r os h (record { same_ids = refl; once = tt }) in
    (e, subst (λ xs. Distinct (ids xs)) e w.once, w.same_ids ∙ ap ids e)

module _ ⦃h : Host⦄ where
  compare_operations-IsComparator : IsConsistent h → IsComparator compare_operations
  unfolding compare_operations
  compare_operations-IsComparator c =
      lexicographic (λ a b. h.locale_compare (base_of a).from (base_of b).from)
        (λ a b. h.locale_compare (base_of a).id (base_of b).id)
        (by_key (λ o. (base_of o).from) h.locale_compare c.collation)
        (by_key (λ o. (base_of o).id) h.locale_compare c.collation)

  keep_all : (os : List Operation) → keep (λ o. true) os ≡ os
  unfolding keep
  keep_all [] = refl
  keep_all (o ∷ os) = ap (◌∷◌ o) (keep_all os)

  replay_sorted :
      (os : List Operation) → replay os none ≡ apply_all empty (sort compare_operations os)
  unfolding replay
  replay_sorted os = rw (keep_all os)

  -- A replayed registry is rebuilt by replaying its own history: `history` lists what was replayed,
  -- and replaying that list gives the same registry, field by field. The host's collation has to be
  -- a consistent comparator.
  pub replay-history :
      IsConsistent h
      → (os : List Operation) (r : Registry) → replay os none ≡ ok r
      → (history r ≡ sort compare_operations os) × (replay (history r) none ≡ ok r)
  unfolding history
  replay-history c os r built =
      let applied : apply_all empty (sort compare_operations os) ≡ ok r =
        sym (replay_sorted os) ∙ built in
      let (e, _, _) = apply_all-recorded (sort compare_operations os) r applied in
      let again =
        sort-Sorted' compare_operations (sort compare_operations os)
          (sort-Sorted (compare_operations-IsComparator c) os) in
      let same_history = ap (sort compare_operations) e ∙ again in
      (
        same_history,
        replay_sorted (history r)
            ∙ ap (λ xs. apply_all empty (sort compare_operations xs)) same_history
            ∙ ap (apply_all empty) again
            ∙ applied,
      )
