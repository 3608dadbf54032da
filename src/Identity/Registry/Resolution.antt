-- ===== src/Identity/Registry/Resolution.antt =====
-- packages/identity/src/index.ts: chains of merges, and the loop of `#canonical` on them.
use woyengi.Base.{
  ℕ, zero, suc, ◌≤◌, ◌<◌, none, some, List, [], Text, text_discrete, true, ok, ◌≡◌, refl, sym, ◌∙◌,
  ap, arith, length, ◌≢◌, inl, inr, Bool-cases, ite,
}
use woyengi.Base.Dict.{
  Dict, get, set, delete, member, add, get-set_self, get-set_ne, get-delete, length-delete-lt,
  member-add,
}
use woyengi.Identity.Registry.{canonical_loop, canonical}

-- `n` merges lead from `e` to `r`, which is merged into nothing.
abbrev pub Chain : Dict Text → ℕ → Text → Text → Type 0
Chain m zero e r = (get e m ≡ none) × (e ≡ r)
Chain m (suc n) e r = (p : Text) × (get e m ≡ some p) × Chain m n p r

abbrev pub IsAcyclic : Dict Text → Type 0
IsAcyclic m = (e : Text) → (n : ℕ) × (r : Text) × Chain m n e r

pub Chain-root : (m : Dict Text) (n : ℕ) (e r : Text) → Chain m n e r → get r m ≡ none
Chain-root m zero e r (g, q) = rw (← q) g
Chain-root m (suc n) e r (p, g, c) = Chain-root m n p r c

pub Chain-unique :
    (m : Dict Text) (n k : ℕ) (e r s : Text) → Chain m n e r → Chain m k e s → (n ≡ k) × (r ≡ s)
Chain-unique m zero zero e r s (g, p) (h, q) = (refl, sym p ∙ q)
Chain-unique m zero (suc k) e r s (g, p) (x, h, c) = absurd (cc)
Chain-unique m (suc n) zero e r s (x, g, c) (h, q) = absurd (cc)
Chain-unique m (suc n) (suc k) e r s (x, g, c) (y, h, d) =
    let same_parent : x ≡ y = cc in
    let (p, q) = Chain-unique m n k y r s (subst_parent same_parent c) d in (ap suc p, q)
  where
    subst_parent : x ≡ y → Chain m n x r → Chain m n y r
    subst_parent e c = rw (← e) c

-- No merge of a chain leaves a node with a longer chain.
Chain-delete :
    (m : Dict Text) (n k : ℕ) (e s p r : Text)
    → Chain m n e s
    → k < n
    → Chain m k p r
    → Chain (delete e m) k p r
Chain-delete m n zero e s p r long lt (g, q) = (ground (arith, get-delete e p m), q)
Chain-delete m n (suc k) e s p r long lt (x, g, c) = elim (text_discrete e p) [
  | yes q ↦
      let (u, _) = Chain-unique m n (suc k) p s r (rw (← q) long) (x, g, c) in absurd (omega arith)
  | no q ↦ (x, ground (arith, get-delete e p m), Chain-delete m n k e s x r long (omega arith) c)
]

-- A chain is no longer than the map.
pub Chain-length : (m : Dict Text) (n : ℕ) (e r : Text) → Chain m n e r → n ≤ length m
Chain-length m zero e r c = omega arith
Chain-length m (suc n) e r (p, g, c) = omega (
  arith,
  Chain-length (delete e m) n p r (Chain-delete m (suc n) n e r p r (p, g, c) (omega arith) c),
  length-delete-lt e m p g,
)

-- What the loop has visited has a longer chain than where it stands.
abbrev Behind : Dict Text → ℕ → List Text → Type 0
Behind m n visited =
    (v : Text) → member v visited ≡ true → (k : ℕ) × (s : Text) × (n < k) × Chain m k v s

Behind-step :
    (m : Dict Text) (n : ℕ) (visited : List Text) (e r : Text)
    → Chain m (suc n) e r
    → Behind m (suc n) visited
    → Behind m n (add e visited)
Behind-step m n visited e r c b v h = elim (text_discrete e v) [
  | yes q ↦ (suc n, r, omega arith, rw (← q) c)
  | no q ↦
      let (k, s, lt, d) = b v (ground (arith, member-add e v visited)) in (k, s, omega arith, d)
]

canonical_loop-Chain :
    (m : Dict Text) (n fuel : ℕ) (visited : List Text) (e r : Text)
    → n < fuel
    → Chain m n e r
    → Behind m n visited
    → canonical_loop fuel m visited e ≡ some (ok r)
unfolding canonical_loop
canonical_loop-Chain m n zero visited e r lt c b = elim lt [ ]
canonical_loop-Chain m zero (suc fuel) visited e r lt (g, q) b = ground arith
canonical_loop-Chain m (suc n) (suc fuel) visited e r lt (p, g, c) b =
    elim (Bool-cases (member e visited)) [
      | inl seen ↦
          let (k, s, gt, d) = b e seen in
          let (u, _) = Chain-unique m (suc n) k e r s (p, g, c) d in absurd (omega arith)
      | inr fresh ↦ ground (
        arith,
        canonical_loop-Chain m n fuel (add e visited) p r (omega arith) c
            (Behind-step m n visited e r (p, g, c) b),
      )
    ]

-- `#canonical` follows the chain to its root: the fuel is enough, and no cycle is reported.
pub canonical-Chain : (m : Dict Text) (n : ℕ) (e r : Text) → Chain m n e r → canonical m e ≡ ok r
unfolding canonical member
canonical-Chain m n e r c = rw (
    canonical_loop-Chain m n (suc (length m)) [] e r (omega (arith, Chain-length m n e r c)) c
      (λ v h. absurd (cc)))

-- And what it returns is the root of the chain.
pub Chain-canonical :
    (m : Dict Text) (e r : Text) → IsAcyclic m → canonical m e ≡ ok r → (n : ℕ) × Chain m n e r
Chain-canonical m e r a h =
    let (n, s, c) = a e in let q : s ≡ r = cc (canonical-Chain m n e s c) in (n, rw (← q) c)

-- Only the entries matter, not their order.
pub Chain-congr :
    (m m' : Dict Text) (n : ℕ) (e r : Text)
    → ((x : Text) → get x m ≡ get x m')
    → Chain m n e r
    → Chain m' n e r
Chain-congr m m' zero e r f (g, q) = (sym (f e) ∙ g, q)
Chain-congr m m' (suc n) e r f (p, g, c) = (p, sym (f e) ∙ g, Chain-congr m m' n p r f c)

module _ (m : Dict Text) (c mg : Text) where
  -- A chain with another root than `mg` has is not changed when `mg` is merged.
  pub Chain-set_apart :
      (k n : ℕ) (s x r : Text) → Chain m k mg s → r ≢ s → Chain m n x r → Chain (set mg c m) n x r
  Chain-set_apart k zero s x r d apart (g, q) = elim (text_discrete mg x) [
    | yes e ↦ let (_, u) = Chain-unique m zero k mg r s (rw e (g, q)) d in absurd (apart u)
    | no e ↦ (get-set_ne mg x c m e ∙ g, q)
  ]
  Chain-set_apart k (suc n) s x r d apart (p, g, ch) = elim (text_discrete mg x) [
    | yes e ↦ let (_, u) = Chain-unique m (suc n) k mg r s (rw e (p, g, ch)) d in absurd (apart u)
    | no e ↦ (p, get-set_ne mg x c m e ∙ g, Chain-set_apart k n s p r d apart ch)
  ]

  module _ (nc : ℕ) (rc : Text) (cc' : Chain (set mg c m) nc c rc) where
    merged-Chain : (x : Text) → mg ≡ x → Chain (set mg c m) (suc nc) x rc
    merged-Chain x e = (c, rw (← e) (get-set_self mg c m), cc')

    -- Every chain goes on to a root after the merge.
    pub Chain-set :
        (n : ℕ) (x r : Text) → Chain m n x r → (k : ℕ) × (s : Text) × Chain (set mg c m) k x s
    Chain-set zero x r (g, q) = elim (text_discrete mg x) [
      | yes e ↦ (suc nc, rc, merged-Chain x e)
      | no e ↦ (0, r, (get-set_ne mg x c m e ∙ g, q))
    ]
    Chain-set (suc n) x r (p, g, ch) = elim (text_discrete mg x) [
      | yes e ↦ (suc nc, rc, merged-Chain x e)
      | no e ↦ let (k, s, d) = Chain-set n p r ch in (suc k, s, (p, get-set_ne mg x c m e ∙ g, d))
    ]

    -- If `mg` was a root, then what resolved to it resolves to the new root, and the rest stays.
    pub Chain-set_root :
        (n : ℕ) (x r : Text)
        → get mg m ≡ none
        → Chain m n x r
        → (k : ℕ) × Chain (set mg c m) k x (ite (text_discrete mg r) rc r)
    Chain-set_root zero x r free (g, q) = elim (text_discrete mg x) [
      | yes e ↦
          let v : ite (text_discrete mg r) rc r ≡ rc = ground arith in
          (suc nc, rw v (merged-Chain x e))
      | no e ↦
          let v : ite (text_discrete mg r) rc r ≡ r = ground arith in
          (0, rw v (get-set_ne mg x c m e ∙ g, q))
    ]
    Chain-set_root (suc n) x r free (p, g, ch) = elim (text_discrete mg x) [
      | yes e ↦ absurd (cc (sym free, e))
      | no e ↦
          let (k, d) = Chain-set_root n p r free ch in (suc k, (p, get-set_ne mg x c m e ∙ g, d))
    ]

-- Every chain goes on to a root when a merge is taken back.
pub Chain-split :
    (m : Dict Text) (e : Text) (n : ℕ) (x r : Text)
    → Chain m n x r
    → (k : ℕ) × (s : Text) × Chain (delete e m) k x s
Chain-split m e zero x r (g, q) = (0, x, (ground (arith, get-delete e x m), refl))
Chain-split m e (suc n) x r (p, g, c) = elim (text_discrete e x) [
  | yes q ↦ (0, x, (ground (arith, get-delete e x m), refl))
  | no q ↦
      let (k, s, d) = Chain-split m e n p r c in
      (suc k, s, (p, ground (arith, get-delete e x m), d))
]
