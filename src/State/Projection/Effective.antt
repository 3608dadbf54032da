-- ===== src/State/Projection/Effective.antt =====
-- packages/state/src/index.ts: the lifecycle that a claim has at an instant.
use woyengi.Base.{
  Text, Bool, true, ◌≡◌, ◌≢◌, ◌⊎◌, inl, inr, ap, In, In_keep, In-keep, keep, or_default, text_le,
  Host, IsConsistent, Ordering,
}
use woyengi.Base.Compare.{lexicographic, by_key, Then, Then-or_else}
use woyengi.Base.Ordered.{Sorted-keep, last-Sorted}
use woyengi.Base.Sort.{sort, In-sort, In_sort, sort-Sorted, IsComparator}
use woyengi.Core.{ClaimRecord, LifecycleTransitionRecord, LifecycleStatus}
use woyengi.State.Ledger.{ClaimLedger, transitions_of}
use woyengi.State.Projection.{
  effective_lifecycle, lifecycle_history, compare_lifecycle_transaction_order, status_of,
}

module _ ⦃h : Host⦄ where
  -- The transition is recorded before the other, or with it and under an id that is not after it.
  abbrev pub Earlier : LifecycleTransitionRecord → LifecycleTransitionRecord → Type 0
  Earlier a b =
      Then (h.locale_compare a.transaction_time.from b.transaction_time.from)
        (h.locale_compare a.id b.id ≢ Ordering.gt)

  -- The status of the latest transition of the claim that was recorded by the instant, and of the
  -- claim itself where there is none.
  abbrev pub IsEffective : ClaimLedger → ClaimRecord → Text → LifecycleStatus → Type 0
  IsEffective l claim at s =
      ((s ≡ claim.lifecycle)
        × ((t : LifecycleTransitionRecord)
            → In t (transitions_of l claim.id)
            → text_le t.transaction_time.from at ≢ true))
      ⊎ (t : LifecycleTransitionRecord) × In t (transitions_of l claim.id)
        × (text_le t.transaction_time.from at ≡ true)
        × (s ≡ t.status)
        × ((u : LifecycleTransitionRecord)
            → In u (transitions_of l claim.id)
            → text_le u.transaction_time.from at ≡ true
            → Earlier u t)

  compare_lifecycle-Earlier :
      (a b : LifecycleTransitionRecord)
      → compare_lifecycle_transaction_order a b ≢ Ordering.gt
      → Earlier a b
  unfolding compare_lifecycle_transaction_order
  compare_lifecycle-Earlier a b n = Then-or_else _ _ _ (λ m. m) n

module _ ⦃h : Host⦄ (c : IsConsistent h) where
  compare_lifecycle-IsComparator : IsComparator compare_lifecycle_transaction_order
  unfolding compare_lifecycle_transaction_order
  compare_lifecycle-IsComparator =
      lexicographic (λ a b. h.locale_compare a.transaction_time.from b.transaction_time.from)
        (λ a b. h.locale_compare a.id b.id)
        (by_key (λ r. r.transaction_time.from) h.locale_compare c.collation)
        (by_key (λ r. r.id) h.locale_compare c.collation)

  pub effective_lifecycle-IsEffective :
      (l : ClaimLedger) (claim : ClaimRecord) (at : Text)
      → IsEffective l claim at (effective_lifecycle l claim at)
  unfolding effective_lifecycle lifecycle_history
  effective_lifecycle-IsEffective l claim at =
      let ts = transitions_of l claim.id in
      let cmp = compare_lifecycle_transaction_order in
      let by_then : LifecycleTransitionRecord → Bool = λ t. text_le t.transaction_time.from at in
      let known = keep by_then (sort cmp ts) in
      let In_known : (t : LifecycleTransitionRecord) → In t ts → by_then t ≡ true → In t known =
        λ t i e. In_keep by_then t (sort cmp ts) (In_sort cmp t ts i) e in
      elim (last-Sorted cmp compare_lifecycle-IsComparator known
        (Sorted-keep cmp by_then (sort cmp ts) (sort-Sorted compare_lifecycle-IsComparator ts))) [
          | inl (e, empty) ↦ inl (
            ap (λ o. or_default (status_of o) claim.lifecycle) e,
            (λ t i due. empty t (In_known t i due)),
          )
          | inr (t, e, i, top) ↦
              let (j, due) = In-keep by_then t (sort cmp ts) i in
              inr (
                t,
                In-sort cmp t ts j,
                due,
                ap (λ o. or_default (status_of o) claim.lifecycle) e,
                (λ u k early. compare_lifecycle-Earlier u t (λ g. cc (top u (In_known u k early)))),
              )
        ]
