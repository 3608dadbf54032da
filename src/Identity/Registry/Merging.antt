-- ===== src/Identity/Registry/Merging.antt =====
-- packages/identity/src/index.ts: what `apply`, `#canonical` and `resolveAlias` do to identities.
use woyengi.Base.{
  Option, none, some, List, Text, text_discrete, ok, ◌≡◌, ◌≢◌, refl, sym, ◌∙◌, arith, ite, suc,
  ok-injective, ap,
}
use woyengi.Base.Dict.{get, set, delete, get-set, get-delete}
use woyengi.Core.{Authority}
use woyengi.Identity.Operations.{Operation, OperationBase, entities_merged, entity_split}
use woyengi.Identity.Registry.{Registry, empty, apply, apply_all, canonical}
use woyengi.Identity.Registry.Resolution.{
  Chain-root, Chain-canonical, canonical-Chain, Chain-set_root, Chain-set_apart, Chain-congr,
}
use woyengi.Identity.Registry.Invariant.{
  IsWellFormed, apply-Merged, apply-Split, apply_all-IsWellFormed, empty-IsWellFormed,
}

-- Whatever operations have built a registry, the canonical entity of every string is found: the
-- loop ends, it reports no cycle, and what it returns is merged into nothing.
pub canonical_total :
    (os : List Operation) (r : Registry)
    → apply_all empty os ≡ ok r
    → (e : Text)
    → (root : Text) × (canonical r.merged_into e ≡ ok root) × (get root r.merged_into ≡ none)
canonical_total os r h e =
    let w = apply_all-IsWellFormed empty r os h empty-IsWellFormed in
    let (n, s, c) = w.acyclic e in
    (s, canonical-Chain r.merged_into n e s c, Chain-root r.merged_into n e s c)

module _ (r r' : Registry) (b : OperationBase) (c m : Text) (p : Option Text) (a : Authority) where
  -- After a merge of an entity that was merged into nothing, what resolved to it resolves to the
  -- other entity's root, and everything else resolves as before.
  pub canonical-merge :
      IsWellFormed r
      → get m r.merged_into ≡ none
      → apply r (entities_merged b c m p a) ≡ ok r'
      → (rc x rx : Text) → canonical r.merged_into c ≡ ok rc
      → canonical r.merged_into x ≡ ok rx
      → canonical r'.merged_into x ≡ ok (ite (text_discrete m rx) rc rx)
  canonical-merge w free h rc x rx ec ex =
      let g = apply-Merged r r' b c m p a h in
      let (nc, ch) = Chain-canonical r.merged_into c rc w.acyclic ec in
      let (nm, dh) = Chain-canonical r.merged_into m g.root_m w.acyclic g.resolves_m in
      let (n, xh) = Chain-canonical r.merged_into x rx w.acyclic ex in
      let apart : rc ≢ g.root_m = λ q. g.apart (ground (arith, g.resolves_c)) in
      let (k, d) =
        Chain-set_root r.merged_into c m nc rc
          (Chain-set_apart r.merged_into c m nm nc g.root_m c rc dh apart ch) n x rx free xh in
      rw g.merges (canonical-Chain (set m c r.merged_into) k x _ d)

  -- Two entities that resolve together cannot be merged.
  merge-together :
      (x y root : Text) (s : Registry) (b2 : OperationBase) (p2 : Option Text) (a2 : Authority)
      → canonical r'.merged_into x ≡ ok root
      → canonical r'.merged_into y ≡ ok root
      → apply r' (entities_merged b2 x y p2 a2) ≢ ok s
  merge-together x y root s b2 p2 a2 ex ey again =
      let g = apply-Merged r' s b2 x y p2 a2 again in
      g.apart (ok-injective (sym g.resolves_c ∙ ex ∙ sym ey ∙ g.resolves_m))

  -- After any merge the two entities resolve together, to the root that the first one had; and a
  -- further merge of the two, in either order, is refused.
  pub merge_together :
      IsWellFormed r
      → apply r (entities_merged b c m p a) ≡ ok r'
      → (root : Text) × (canonical r.merged_into c ≡ ok root)
        × (canonical r'.merged_into c ≡ ok root)
        × (canonical r'.merged_into m ≡ ok root)
        × ((s : Registry) (b2 : OperationBase) (p2 : Option Text) (a2 : Authority)
            → apply r' (entities_merged b2 c m p2 a2) ≢ ok s)
        × ((s : Registry) (b2 : OperationBase) (p2 : Option Text) (a2 : Authority)
            → apply r' (entities_merged b2 m c p2 a2) ≢ ok s)
  merge_together w h =
      let g = apply-Merged r r' b c m p a h in
      let (nc, ch) = Chain-canonical r.merged_into c g.root_c w.acyclic g.resolves_c in
      let (nm, dh) = Chain-canonical r.merged_into m g.root_m w.acyclic g.resolves_m in
      let ch' = Chain-set_apart r.merged_into c m nm nc g.root_m c g.root_c dh g.apart ch in
      let ec : canonical r'.merged_into c ≡ ok g.root_c =
        ap (λ k. canonical k c) g.merges
        ∙ canonical-Chain (set m c r.merged_into) nc c g.root_c ch' in
      let em : canonical r'.merged_into m ≡ ok g.root_c =
        ap (λ k. canonical k m) g.merges
        ∙ canonical-Chain (set m c r.merged_into) (suc nc) m g.root_c
            (c, ground (arith, get-set m m c r.merged_into), ch') in
      (
        g.root_c,
        g.resolves_c,
        ec,
        em,
        (λ s b2 p2 a2. merge-together c m g.root_c s b2 p2 a2 ec em),
        (λ s b2 p2 a2. merge-together m c g.root_c s b2 p2 a2 em ec),
      )

  module _ (r'' : Registry) (b' : OperationBase) (a' : Authority) where
    -- A merge of an entity that was merged into nothing is taken back by a split of that entity:
    -- everything resolves as before the merge.
    pub canonical-merge_split :
        IsWellFormed r
        → get m r.merged_into ≡ none
        → apply r (entities_merged b c m p a) ≡ ok r'
        → apply r' (entity_split b' m a') ≡ ok r''
        → (x : Text) → canonical r''.merged_into x ≡ canonical r.merged_into x
    canonical-merge_split w free h k x =
        let g = apply-Merged r r' b c m p a h in
        let (n, s, ch) = w.acyclic x in
        let split : r''.merged_into ≡ delete m (set m c r.merged_into) =
          apply-Split r' r'' b' m a' k ∙ rw g.merges refl in
        rw split (
          canonical-Chain (delete m (set m c r.merged_into)) n x s (
            Chain-congr r.merged_into (delete m (set m c r.merged_into)) n x s
              (λ y.
                ground (arith, get-delete m y (set m c r.merged_into), get-set m y c r.merged_into))
              ch)
          ∙ sym (canonical-Chain r.merged_into n x s ch))

    -- A merge of an entity that was merged already is not taken back by a split of that entity:
    -- after the split the entity resolves to itself, and it did not before the merge.
    pub merge_again-split :
        IsWellFormed r
        → (d : Text) → get m r.merged_into ≡ some d
        → apply r (entities_merged b c m p a) ≡ ok r'
        → apply r' (entity_split b' m a') ≡ ok r''
        → (canonical r''.merged_into m ≡ ok m) × (canonical r.merged_into m ≢ ok m)
    merge_again-split w d old h k =
        let split : r''.merged_into ≡ delete m r'.merged_into = apply-Split r' r'' b' m a' k in
        (
          rw split (
              canonical-Chain (delete m r'.merged_into) 0 m m
                (ground (arith, get-delete m m r'.merged_into), refl)),
          λ q.
              let (n, ch) = Chain-canonical r.merged_into m m w.acyclic q in
              cc (old, Chain-root r.merged_into n m m ch),
        )
