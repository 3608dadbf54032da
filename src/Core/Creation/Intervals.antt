-- ===== src/Core/Creation/Intervals.antt =====
-- packages/core/src/index.ts: the records that the constructors return are valid.
use woyengi.Base.{
  subst, ok-injective, refl, Option, none, some, [], Text, text, false, ◌||◌, ok, ◌≡◌, text_le,
  Host, >>=-eq-ok, throw_if->>-eq-ok, namespaced, normalize_instant, explicit_offset, map_result,
  or_default, ◌⊎◌, inl, inr, arith,
}
use woyengi.Base.Number.{number_lt, number_zero, number_one, Double, nan, finite, double_lt, Number}
use woyengi.Core.{TimeInterval, ClaimRecord, provisional}
use woyengi.Core.Creation.{
  CreateClaimInput, interval, bounded_interval, create_claim, record_id, entity_id, authority_of,
}

-- The end of the interval, where it has one, is after its start.
pub record IsInterval (i : TimeInterval) : Type 0 where
  pub ends_after : (e : Text) → i.to ≡ some e → text_le e i.from ≡ false

module _ ⦃h : Host⦄ where
  bounded_interval-IsInterval :
      (f : Text) (t : Option Text) (i : TimeInterval) → bounded_interval f t ≡ ok i → IsInterval i
  unfolding bounded_interval
  bounded_interval-IsInterval f none i e = record { ends_after = λ x q. cc }
  bounded_interval-IsInterval f (some t) i e =
      let (to, _, k) = >>=-eq-ok (normalize_instant explicit_offset t) _ e in
      let (late, k') = throw_if->>-eq-ok (text_le to f) _ _ _ k in
      let ei : i ≡ record { from = f; to = some to } = cc in
      record {
        ends_after = λ x q.
            let same_end : x ≡ to = cc in let from : i.from ≡ f = cc in rw (same_end, from) late;
      }

  interval-IsInterval :
      (f : Text) (t : Option Text) (i : TimeInterval) → interval f t ≡ ok i → IsInterval i
  unfolding interval
  interval-IsInterval f t i e =
      let (n, _, k) = >>=-eq-ok (normalize_instant explicit_offset f) _ e in
      bounded_interval-IsInterval n t i k

  -- What a created claim satisfies.
  pub record IsClaim (input : CreateClaimInput) (c : ClaimRecord) : Type 0 where
    pub confident :
        (c.confidence ≡ nan)
        ⊎ (n : Number) × (c.confidence ≡ finite n)
          × (number_lt n number_zero ≡ false)
          × (number_lt number_one n ≡ false)
    pub identified : record_id (text "claim") input.id ≡ ok c.id
    pub about : entity_id input.subject ≡ ok c.subject
    pub valid : IsInterval c.valid_time
    pub recorded : interval input.recorded_at none ≡ ok c.transaction_time
    pub status : c.lifecycle ≡ or_default input.lifecycle provisional

  in_bounds :
      (x : Double)
      → (double_lt x (finite number_zero) || double_lt (finite number_one) x) ≡ false
      → (x ≡ nan)
        ⊎ (n : Number) × (x ≡ finite n)
          × (number_lt n number_zero ≡ false)
          × (number_lt number_one n ≡ false)
  in_bounds nan e = inl refl
  in_bounds (finite n) e = inr (n, refl, ground arith, ground arith)

  -- A claim that `createClaim` returns has a confidence that is NaN or between 0 and 1 (NaN passes
  -- the test for a number out of these bounds), a claim id, an entity as
  -- its subject, a valid time whose end, if there is one, is after its start, the recording time as
  -- its transaction time, and the input's lifecycle, which is provisional if the input has none.
  pub create_claim-IsClaim :
      (input : CreateClaimInput) (c : ClaimRecord) → create_claim input ≡ ok c → IsClaim input c
  unfolding create_claim
  create_claim-IsClaim input c e =
      let (fits, k0) =
        throw_if->>-eq-ok
          (double_lt input.confidence (finite number_zero)
            || double_lt (finite number_one) input.confidence)
          _ _ _ e in
      let (id, e1, k1) = >>=-eq-ok (record_id (text "claim") input.id) _ k0 in
      let (subject, e2, k2) = >>=-eq-ok (entity_id input.subject) _ k1 in
      let (pred, e3, k3) = >>=-eq-ok (namespaced (text "predicate") input.predicate) _ k2 in
      let (vt, e4, k4) = >>=-eq-ok (interval input.valid_time.from input.valid_time.to) _ k3 in
      let (tt', e5, k5) = >>=-eq-ok (interval input.recorded_at none) _ k4 in
      let (os, e6, k6) =
        >>=-eq-ok
          (map_result (record_id (text "observation")) (or_default input.observation_ids [])) _
          k5 in
      let (es, e7, k7) =
        >>=-eq-ok (map_result (record_id (text "evidence")) (or_default input.evidence_ids [])) _
          k6 in
      let (au, e8, k8) = >>=-eq-ok (authority_of input.authority) _ k7 in
      subst (λ x. IsClaim input x) (ok-injective k8)
        (record {
          confident = in_bounds input.confidence fits;
          identified = e1;
          about = e2;
          valid = interval-IsInterval _ _ vt e4;
          recorded = e5;
          status = refl;
        })
