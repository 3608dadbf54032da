-- ===== src/Sync/Converging.antt =====
-- packages/sync/src/index.ts: replicas that hold the same operations agree.
use woyengi.Base.{List, ◌≡◌, refl, Host, IsConsistent}
use woyengi.Base.Compare.{lexicographic, by_key}
use woyengi.Base.Dict.{Dict}
use woyengi.Base.Reordering.{Reordered, TellsApart, sort-Reordered}
use woyengi.Base.Sort.{IsComparator}
use woyengi.Sync.{SyncOperation, MergePolicy, Target, compare_operations, synchronize}

module _ ⦃h : Host⦄ (consistent : IsConsistent h) where
  compare_operations-IsComparator : IsComparator compare_operations
  unfolding compare_operations
  compare_operations-IsComparator =
      lexicographic (λ a b. h.locale_compare a.from b.from) (λ a b. h.locale_compare a.id b.id)
        (by_key (λ (o : SyncOperation). o.from) h.locale_compare consistent.collation)
        (by_key (λ (o : SyncOperation). o.id) h.locale_compare consistent.collation)

  -- Two replicas that received the same operations in different orders synchronise to the same
  -- objects, conflicts and rejections, or raise the same error, where the collation is consistent
  -- and tells any two different operations apart by time or id.
  pub synchronize-Reordered :
      (policies : Dict MergePolicy) (target : Target) (xs ys : List SyncOperation)
      → Reordered xs ys
      → TellsApart compare_operations xs
      → synchronize policies xs target ≡ synchronize policies ys target
  unfolding synchronize
  synchronize-Reordered policies target xs ys r t =
      rw (sort-Reordered compare_operations compare_operations-IsComparator xs ys r t) refl
