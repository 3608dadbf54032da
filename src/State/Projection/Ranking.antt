-- ===== src/State/Projection/Ranking.antt =====
-- packages/state/src/index.ts: the comparators of the ledger are consistent where the host's is.
use woyengi.Base.{Host, IsConsistent, compare, arith, Ordering, or_else, ◌≡◌, ◌≢◌, refl}
use woyengi.Base.Compare.{
  known_number, compare_double-number, lexicographic, by_key, descending,
  compare_number-IsComparator,
}
use woyengi.Base.Number.{compare_number, nan}
use woyengi.Base.Sort.{IsComparator}
use woyengi.State.Projection.{
  ProjectedClaim, compare_projection_priority, compare_transaction_order, lifecycle_rank,
}

compare-IsComparator : IsComparator compare
compare-IsComparator = record { flip = λ a b. ground arith; trans = λ a b c h k. ground arith }

module _ ⦃h : Host⦄ where
  -- The priority of claims whose confidence is a number.
  abbrev pub numeric_priority : ProjectedClaim → ProjectedClaim → Ordering
  numeric_priority a b =
      or_else
        (compare (lifecycle_rank b.effective_lifecycle) (lifecycle_rank a.effective_lifecycle))
        (or_else (compare_number b.claim.authority.level a.claim.authority.level) (
          or_else (h.locale_compare b.claim.valid_time.from a.claim.valid_time.from) (
            or_else (h.locale_compare b.claim.transaction_time.from a.claim.transaction_time.from) (
              or_else
                (compare_number (known_number b.claim.confidence) (known_number a.claim.confidence))
                (h.locale_compare a.claim.id b.claim.id)))))

  pub compare_projection_priority-numeric :
      (a b : ProjectedClaim)
      → a.claim.confidence ≢ nan
      → b.claim.confidence ≢ nan
      → compare_projection_priority a b ≡ numeric_priority a b
  unfolding compare_projection_priority
  compare_projection_priority-numeric a b n m =
      rw (compare_double-number b.claim.confidence a.claim.confidence m n) refl

module _ ⦃h : Host⦄ (c : IsConsistent h) where
  pub compare_transaction_order-IsComparator : IsComparator compare_transaction_order
  unfolding compare_transaction_order
  compare_transaction_order-IsComparator =
      lexicographic (λ a b. h.locale_compare a.transaction_time.from b.transaction_time.from)
        (λ a b. h.locale_compare a.id b.id)
        (by_key (λ r. r.transaction_time.from) h.locale_compare c.collation)
        (by_key (λ r. r.id) h.locale_compare c.collation)

  -- One key of the priority, the higher value first.
  down :
      {B : Type 0} (k : ProjectedClaim → B) (f : B → B → Ordering)
      → IsComparator f
      → IsComparator (λ a b. f (k b) (k a))
  down k f p = descending (λ a b. f (k a) (k b)) (by_key k f p)

  pub numeric_priority-IsComparator : IsComparator numeric_priority
  numeric_priority-IsComparator =
      lexicographic _ _
        (down (λ p. lifecycle_rank p.effective_lifecycle) compare compare-IsComparator)
        (lexicographic _ _
          (down (λ p. p.claim.authority.level) compare_number compare_number-IsComparator)
          (lexicographic _ _ (down (λ p. p.claim.valid_time.from) h.locale_compare c.collation) (
            lexicographic _ _
              (down (λ p. p.claim.transaction_time.from) h.locale_compare c.collation)
              (lexicographic _ _
                (down (λ p. known_number p.claim.confidence) compare_number
                  compare_number-IsComparator)
                (by_key (λ p. p.claim.id) h.locale_compare c.collation)))))
