-- ===== src/State/Projection/Selecting.antt =====
-- packages/state/src/index.ts: what `projectAt` selects, lists and reports as a conflict.
use woyengi.Base.{none, some, [], Text, Bool, not, ◌&&◌, ◌≡◌, ◌≢◌, In, same, first, Host, ◌↔◌}
use woyengi.Base.Dict.{values}
use woyengi.Core.{ClaimRecord}
use woyengi.State.CanonicalValue.{canonical_value}
use woyengi.State.Ledger.{ClaimLedger}
use woyengi.State.Projection.{
  StateProjection, StateProjectionQuery, ProjectedClaim, effective_lifecycle,
}
use woyengi.Base.Ordered.{Ordered}
use woyengi.State.Projection.Effective.{IsEffective}
use woyengi.State.Projection.Priority.{IsWithin, Governs, HasPriority}

module _ ⦃h : Host⦄ (l : ClaimLedger) (query : StateProjectionQuery)
    (valid_at recorded_at : Text) where
  -- A claim of the ledger on the queried subject and predicate, known and valid at the two
  -- instants, under the lifecycle that its transitions had given it by then.
  pub record IsCandidate (c : ProjectedClaim) : Type 0 where
    pub stored : In c.claim (values l.claims_by_id)
    pub about : c.claim.subject ≡ query.subject
    pub says : c.claim.predicate ≡ query.predicate
    pub known : IsWithin c.claim.transaction_time recorded_at
    pub valid : IsWithin c.claim.valid_time valid_at
    pub effective : c.effective_lifecycle ≡ effective_lifecycle l c.claim recorded_at
    pub governing : Governs c.effective_lifecycle

  abbrev pub projected : ClaimRecord → ProjectedClaim
  projected claim = record {
    claim = claim;
    effective_lifecycle = effective_lifecycle l claim recorded_at;
  }

  -- What a projection has to be: its candidates are exactly the candidates of the ledger, each with
  -- priority over every later one, under the status that the transitions recorded by then give it;
  -- the first of them is selected; and the conflicts are exactly the candidates with another id and
  -- another canonical value than the selected one.
  pub record IsProjection (p : StateProjection) : Type 0 where
    pub exact : (c : ProjectedClaim) → In c p.candidates ↔ IsCandidate c
    pub ranked : Ordered HasPriority p.candidates
    pub current :
        (c : ProjectedClaim)
        → In c p.candidates
        → IsEffective l c.claim recorded_at c.effective_lifecycle
    pub chosen : p.selected ≡ first p.candidates
    pub unopposed : p.selected ≡ none → p.conflicts ≡ []
    pub opposed :
        (s : ProjectedClaim)
        → p.selected ≡ some s
        → (c : ProjectedClaim)
        → In c p.conflicts ↔ (
            In c p.candidates
            × (c.claim.id ≢ s.claim.id)
            × (canonical_value c.claim.object_value ≢ canonical_value s.claim.object_value))

  abbrev differs : ProjectedClaim → ProjectedClaim → Bool
  differs s c =
      not (same c.claim.id s.claim.id)
      && not (same (canonical_value c.claim.object_value) (canonical_value s.claim.object_value))
