-- ===== src/Permissions/Engine/Chains.antt =====
-- packages/permissions/src/index.ts: the invariant of the engine, and chains of delegation.
use woyengi.Base.{
  ℕ, zero, suc, ◌+◌, ◌≤◌, ◌<◌, Option, none, some, Text, ok, ◌≡◌, arith, inl, inr, Host,
  Option-cases, prefixed, text, normalize_instant, explicit_offset, text_discrete, Result-cases,
  subst, sym,
}
use woyengi.Base.Dict.{get, set, get-set}
use woyengi.Permissions.Capability.{Capability}
use woyengi.Permissions.Engine.{
  AuthorizationRequest, Engine, empty, register, revoke, validate_delegation,
}
use woyengi.Permissions.Engine.Passing.{Covers}
use woyengi.Permissions.Engine.Delegating.{Narrows, check_delegation-Narrows, Narrows-Covers}

-- Every registered capability stands under its id, and its parent, if it names one, is registered
-- and narrowed by it.
pub record IsWellFormed (e : Engine) : Type 0 where
  pub own_id : (id : Text) (c : Capability) → get id e.capabilities ≡ some c → c.id ≡ id
  pub narrowed :
      (id parent_id : Text) (c : Capability)
      → get id e.capabilities ≡ some c
      → c.delegation.parent_capability_id ≡ some parent_id
      → (p : Capability) × (get parent_id e.capabilities ≡ some p) × Narrows c p

empty-IsWellFormed : IsWellFormed empty
unfolding empty get
empty-IsWellFormed = record {
  own_id = λ id c h. absurd (cc);
  narrowed = λ id pid c h q. absurd (cc);
}

validate_delegation-Narrows :
    (e : Engine) (c : Capability) (parent : Option Text) (id : Text) (u : Unit {0})
    → parent ≡ some id
    → validate_delegation e c parent ≡ ok u
    → (p : Capability) × (get id e.capabilities ≡ some p) × Narrows c p
unfolding validate_delegation
validate_delegation-Narrows e c none id u q h = absurd (cc)
validate_delegation-Narrows e c (some pid) id u q h = elim (Option-cases (get pid e.capabilities)) [
  | inl missing ↦ absurd (ground arith)
  | inr (p, found) ↦ (p, ground arith, check_delegation-Narrows c p pid {u = u} (ground arith))
]

record Registered (e e' : Engine) (c : Capability) : Type 0 where
  fresh : get c.id e.capabilities ≡ none
  checked : validate_delegation e c c.delegation.parent_capability_id ≡ ok tt
  stored : e'.capabilities ≡ set c.id c e.capabilities

register-Registered : (e e' : Engine) (c : Capability) → register e c ≡ ok e' → Registered e e' c
unfolding register
register-Registered e e' c h =
    elim (Result-cases (validate_delegation e c c.delegation.parent_capability_id)) [
      | inl (tt, q) ↦ record { fresh = ground arith; checked = q; stored = ground arith }
      | inr (k, t, q) ↦ absurd (ground arith)
    ]

pub register-IsWellFormed :
    (e e' : Engine) (c : Capability) → register e c ≡ ok e' → IsWellFormed e → IsWellFormed e'
register-IsWellFormed e e' c h w =
    let g = register-Registered e e' c h in
    let at = λ (id : Text). get-set c.id id c e.capabilities in
    let kept : (pid : Text) (p : Capability)
        → get pid e.capabilities ≡ some p
        → get pid e'.capabilities ≡ some p =
      λ pid p q. rw g.stored (ground (arith, at pid, g.fresh)) in
    record {
      own_id = λ id d q. ground (arith, at id, g.stored, w.own_id id d);
      narrowed = λ id pid d q par. elim (text_discrete c.id id) [
        | yes s ↦
            let same_one : c ≡ d = ground (arith, at id, g.stored) in
            let (p, found, n) =
              validate_delegation-Narrows e c c.delegation.parent_capability_id pid tt
                (rw same_one par) g.checked in
            (p, kept pid p found, subst (λ x. Narrows x p) same_one n)
        | no s ↦
            let (p, found, n) = w.narrowed id pid d (ground (arith, at id, g.stored)) par in
            (p, kept pid p found, n)
      ];
    }

module _ ⦃h : Host⦄ where
  -- The engines that registrations and revocations build.
  pub data Built : Engine → Type 0 where
    new : {e : Engine} → e ≡ empty → Built e
    registered : {e e' : Engine} (c : Capability) → Built e → register e c ≡ ok e' → Built e'
    revoked_one : {e e' : Engine} (id at : Text) → Built e → revoke e id at ≡ ok e' → Built e'

  revoke-capabilities :
      (e e' : Engine) (id at : Text) → revoke e id at ≡ ok e' → e'.capabilities ≡ e.capabilities
  unfolding revoke
  revoke-capabilities e e' id at q =
      elim (Result-cases (prefixed (text "capability id") id (text "capability:"))) [
        | inr (k, t, p) ↦ absurd (ground arith)
        | inl (n, p) ↦ elim (Result-cases (normalize_instant explicit_offset at)) [
          | inr (k, t, o) ↦ absurd (ground arith)
          | inl (i, o) ↦ ground arith
        ]
      ]

  pub Built-IsWellFormed : {e : Engine} → Built e → IsWellFormed e
  Built-IsWellFormed (new q) = subst IsWellFormed (sym q) empty-IsWellFormed
  Built-IsWellFormed (registered {e} {e'} c b q) =
      register-IsWellFormed e e' c q (Built-IsWellFormed b)
  Built-IsWellFormed (revoked_one {e} {e'} id at b q) =
      let w = Built-IsWellFormed b in
      let k = revoke-capabilities e e' id at q in
      record {
        own_id = λ i c g. w.own_id i c (rw k at g);
        narrowed =
            λ i p c g r. let (d, found, n) = w.narrowed i p c (rw k at g) r in (d, rw k found, n);
      }

-- `n` delegations lead from the capability `a` to `c`.
abbrev pub Delegates : Engine → ℕ → Capability → Capability → Type 0
Delegates e zero c a = c ≡ a
Delegates e (suc n) c a =
    (id : Text) × (p : Capability) × (c.delegation.parent_capability_id ≡ some id)
    × (get id e.capabilities ≡ some p)
    × Delegates e n p a

module _ ⦃h : Host⦄ (e : Engine) (b : Built e) where
  -- A capability never covers more than the one it descends from: in every engine that
  -- registrations and revocations have built, whatever a registered capability covers is covered,
  -- at the same time, by each capability that it was delegated from, however long the chain.
  pub Delegates-Covers :
      (n : ℕ) (id : Text) (c a : Capability) (r : AuthorizationRequest) (at : Text)
      → get id e.capabilities ≡ some c
      → Delegates e n c a
      → Covers c r at
      → Covers a r at
  Delegates-Covers zero id c a r at g q v = subst (λ x. Covers x r at) q v
  Delegates-Covers (suc n) id c a r at g (pid, p, parent, found, rest) v =
      let (p', found', narrow) = (Built-IsWellFormed b).narrowed id pid c g parent in
      let same_parent : p' ≡ p = ground arith in
      Delegates-Covers n pid p a r at found rest
        (Narrows-Covers c p r at (subst (λ x. Narrows c x) same_parent narrow) v)

  -- Each delegation is one level deeper, within the maximum depth that the first capability sets:
  -- so no chain of delegations is a cycle, and none is longer than that maximum.
  pub Delegates-depth :
      (n : ℕ) (id : Text) (c a : Capability)
      → get id e.capabilities ≡ some c
      → Delegates e n c a
      → 0 < n
      → (c.delegation.depth ≡ a.delegation.depth + n)
        × (c.delegation.depth ≤ a.delegation.max_depth)
        × (c.delegation.max_depth ≤ a.delegation.max_depth)
  Delegates-depth zero id c a g q pos = elim pos [ ]
  Delegates-depth (suc zero) id c a g (pid, p, parent, found, q) pos =
      let (p', found', narrow) = (Built-IsWellFormed b).narrowed id pid c g parent in
      let same_parent : p' ≡ a = ground arith in
      let m : Narrows c a = subst (λ x. Narrows c x) same_parent narrow in
      omega (arith, m.one_deeper, m.depth_left, m.bounded)
  Delegates-depth (suc (suc n)) id c a g (pid, p, parent, found, rest) pos =
      let (p', found', narrow) = (Built-IsWellFormed b).narrowed id pid c g parent in
      let same_parent : p' ≡ p = ground arith in
      let m : Narrows c p = subst (λ x. Narrows c x) same_parent narrow in
      let (deep, within, most) = Delegates-depth (suc n) pid p a found rest (omega arith) in
      omega (arith, m.one_deeper, m.depth_left, m.bounded, deep, within, most)
