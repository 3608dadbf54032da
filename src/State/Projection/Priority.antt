-- ===== src/State/Projection/Priority.antt =====
-- packages/state/src/index.ts: the intervals and the priority that `projectAt` goes by, described
-- without its comparator.
use woyengi.Base.{
  Option, none, some, Text, true, ◌≡◌, ◌≢◌, ◌⊎◌, inl, inr, ◌↔◌, refl, sym, ◌∙◌, arith, text_le,
  text_lt, Host, Ordering, or_else, compare,
}
use woyengi.Base.Compare.{Then, Then-or_else}
use woyengi.Base.Number.{compare_number, compare_double}
use woyengi.Core.{LifecycleStatus, verified, provisional, TimeInterval}
use woyengi.State.Projection.{
  ProjectedClaim, contains, governs, lifecycle_rank, compare_projection_priority,
}

-- The instant is not before the start of the interval, and before its end if there is one.
pub record IsWithin (i : TimeInterval) (at : Text) : Type 0 where
  pub begun : text_le i.from at ≡ true
  pub unended : (e : Text) → i.to ≡ some e → text_lt at e ≡ true

unended-none :
    (o : Option Text) (at : Text)
    → elim o [ none ↦ true | some to ↦ text_lt at to ] ≡ true
      ↔ ((e : Text) → o ≡ some e → text_lt at e ≡ true)
unended-none none at = ((λ h e q. absurd (cc)), (λ f. refl))
unended-none (some u) at =
    ((λ h e q. let same_end : u ≡ e = cc in rw (← same_end) h), (λ f. f u refl))

pub contains-IsWithin : (i : TimeInterval) (at : Text) → contains i at ≡ true ↔ IsWithin i at
unfolding contains
contains-IsWithin i at = (
  (λ h. record { begun = ground arith; unended = (unended-none i.to at).0 (ground arith) }),
  (λ w. let u = (unended-none i.to at).1 w.unended in let b = w.begun in ground arith),
)

-- Only verified and provisional claims govern.
abbrev pub Governs : LifecycleStatus → Type 0
Governs s = (s ≡ verified) ⊎ (s ≡ provisional)

pub governs-Governs : (s : LifecycleStatus) → governs s ≡ true ↔ Governs s
unfolding governs
governs-Governs s = ((λ h. ground arith), (λ g. ground arith))

rank_lem :
    (s t : LifecycleStatus) (rest : Ordering) (Rest : Type 0)
    → Governs s
    → Governs t
    → (rest ≢ Ordering.gt → Rest)
    → or_else (compare (lifecycle_rank t) (lifecycle_rank s)) rest ≢ Ordering.gt
    → ((s ≡ verified) × (t ≡ provisional)) ⊎ ((s ≡ t) × Rest)
unfolding lifecycle_rank
rank_lem s t rest Rest (inl p) (inl q) f n = inr (p ∙ sym q, f (λ g. n (rw (p, q) g)))
rank_lem s t rest Rest (inl p) (inr q) f n = inl (p, q)
rank_lem s t rest Rest (inr p) (inl q) f n = absurd (n (rw (p, q) refl))
rank_lem s t rest Rest (inr p) (inr q) f n = inr (p ∙ sym q, f (λ g. n (rw (p, q) g)))

module _ ⦃h : Host⦄ where
  -- A verified claim precedes a provisional one. Of two under the same status, the one with the
  -- higher authority precedes; then the one that is valid from a later time; then the one that was
  -- recorded later; then the one with the higher confidence; and at last the ids decide.
  abbrev pub HasPriority : ProjectedClaim → ProjectedClaim → Type 0
  HasPriority a b =
      ((a.effective_lifecycle ≡ verified) × (b.effective_lifecycle ≡ provisional))
      ⊎ ((a.effective_lifecycle ≡ b.effective_lifecycle)
          × Then (compare_number b.claim.authority.level a.claim.authority.level) (
              Then (h.locale_compare b.claim.valid_time.from a.claim.valid_time.from) (
                Then (h.locale_compare b.claim.transaction_time.from a.claim.transaction_time.from)
                  (Then (compare_double b.claim.confidence a.claim.confidence)
                    (h.locale_compare a.claim.id b.claim.id ≢ Ordering.gt)))))

  pub compare_projection_priority-HasPriority :
      (a b : ProjectedClaim)
      → Governs a.effective_lifecycle
      → Governs b.effective_lifecycle
      → compare_projection_priority a b ≢ Ordering.gt
      → HasPriority a b
  unfolding compare_projection_priority
  compare_projection_priority-HasPriority a b p q n =
      rank_lem a.effective_lifecycle b.effective_lifecycle _ _ p q
        (Then-or_else _ _ _ (Then-or_else _ _ _ (Then-or_else _ _ _ (Then-or_else _ _ _ (λ m. m)))))
        n
