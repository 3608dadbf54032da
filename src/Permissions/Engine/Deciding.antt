-- ===== src/Permissions/Engine/Deciding.antt =====
-- packages/permissions/src/index.ts: when `authorize` allows, and what `revoke` changes.
use woyengi.Base.{
  Option, none, some, List, [], ◌∷◌, Text, text, true, false, ok, ◌≡◌, ◌≢◌, refl, sym, arith, In,
  In_keep, In-keep, In_map, In-map, inl, inr, same, same-eq, text_le, find, prefixed,
  normalize_instant, explicit_offset, Host, is_some, Bool-cases, Option-cases, ap, ◌∙◌,
}
use woyengi.Base.Dict.{get, set, values, get-set, get-set_ne, get-set_self}
use woyengi.Base.Sort.{In-sort, In_sort}
use woyengi.Permissions.Capability.{Capability}
use woyengi.Permissions.Engine.{
  AuthorizationRequest, AuthorizationDecision, CapabilityEvaluation, Engine, authorize, evaluate,
  evaluations_of, decision, revoke, revoked,
}
use woyengi.Permissions.Engine.Passing.{
  Covers, evaluate-Covers, Covers-evaluate, evaluate-revoked, evaluate-live,
}

-- A registered capability of the principal covers the request and is not revoked by then.
abbrev pub Grants : Engine → AuthorizationRequest → Text → Capability → Type 0
Grants e r at c =
    In c (values e.capabilities)
    × (c.principal ≡ r.principal)
    × (revoked at (get c.id e.revocations) ≡ false)
    × Covers c r at

find-true :
    (vs : List CapabilityEvaluation) (g : CapabilityEvaluation)
    → find (λ v. v.passed) vs ≡ some g
    → In g vs × (g.passed ≡ true)
unfolding find
find-true [] g h = absurd (cc)
find-true (v ∷ vs) g h = elim (Bool-cases v.passed) [
  | inl e ↦ let q : g ≡ v = ground arith in (inl q, rw q e)
  | inr e ↦ let (i, k) = find-true vs g (ground arith) in (inr i, k)
]

find_of_In :
    (vs : List CapabilityEvaluation) (g : CapabilityEvaluation)
    → In g vs
    → g.passed ≡ true
    → is_some (find (λ v. v.passed) vs) ≡ true
unfolding find
find_of_In [] g i k = absurd i
find_of_In (v ∷ vs) g (inl q) k = let p : v.passed ≡ true = rw (← q) k in rw p
find_of_In (v ∷ vs) g (inr i) k = ground (arith, find_of_In vs g i k)

module _ ⦃h : Host⦄ (e : Engine) (r : AuthorizationRequest) (at : Text) where
  -- The evaluations are those of the principal's registered capabilities.
  evaluations_of-In :
      (v : CapabilityEvaluation)
      → In v (evaluations_of e r at)
      → (c : Capability) × In c (values e.capabilities)
        × (c.principal ≡ r.principal)
        × (v ≡ evaluate c r at (get c.id e.revocations))
  unfolding evaluations_of
  evaluations_of-In v i =
      let (c, j, q) = In-map (λ x. evaluate x r at (get x.id e.revocations)) v _ i in
      let (k, s) =
        In-keep (λ x. same x.principal r.principal) c (values e.capabilities) (In-sort _ c _ j) in
      (c, k, same-eq c.principal r.principal s, q)

  In-evaluations_of :
      (c : Capability)
      → In c (values e.capabilities)
      → c.principal ≡ r.principal
      → In (evaluate c r at (get c.id e.revocations)) (evaluations_of e r at)
  unfolding evaluations_of
  In-evaluations_of c i q =
      In_map (λ x. evaluate x r at (get x.id e.revocations)) c _
        (In_sort _ c _
          (In_keep (λ x. same x.principal r.principal) c (values e.capabilities) i (ground arith)))

  abbrev verdict : AuthorizationDecision
  verdict = decision (find (λ v. v.passed) (evaluations_of e r at)) (evaluations_of e r at)

  verdict-Grants :
      verdict.allowed ≡ true
      → (c : Capability) × Grants e r at c × (verdict.capability_id ≡ some c.id)
  unfolding decision evaluate
  verdict-Grants a = elim (Option-cases (find (λ v. v.passed) (evaluations_of e r at))) [
    | inl missing ↦ absurd (ground arith)
    | inr (g, found) ↦
        let (i, passed) = find-true (evaluations_of e r at) g found in
        let (c, j, own, q) = evaluations_of-In g i in
        let (live, covers) =
          evaluate-Covers c r at (get c.id e.revocations) (ap (λ v. v.passed) (sym q) ∙ passed) in
        (c, (j, own, live, covers), ground arith)
  ]

  Grants-verdict : (c : Capability) → Grants e r at c → verdict.allowed ≡ true
  unfolding decision
  Grants-verdict c (j, own, live, covers) = ground (
    arith,
    find_of_In (evaluations_of e r at) (evaluate c r at (get c.id e.revocations))
        (In-evaluations_of c j own) (Covers-evaluate c r at (get c.id e.revocations) live covers),
  )

module _ ⦃h : Host⦄ (e : Engine) (request : AuthorizationRequest) (at p w cp : Text) where
  -- The request as `authorize` reads it.
  abbrev pub normalized : AuthorizationRequest
  normalized = record request { principal = p; context_workspace_id = w; context_principal_id = cp }

  -- A well-formed request is always decided, and it is allowed exactly when some registered
  -- capability of its principal covers it and is not revoked by then; the decision then names such
  -- a capability, and otherwise it names none.
  pub authorize-Grants :
      normalize_instant explicit_offset request.at ≡ ok at
      → prefixed (text "authorization principal") request.principal (text "principal:") ≡ ok p
      → prefixed (text "authorization workspace") request.context_workspace_id (text "workspace:")
        ≡ ok w
      → prefixed
          (text "workspace context principal")
          request.context_principal_id
          (text "principal:")
        ≡ ok cp
      → (d : AuthorizationDecision) × (authorize e request ≡ ok d)
        × ((c : Capability) → Grants e normalized at c → d.allowed ≡ true)
        × (d.allowed ≡ true
            → (c : Capability) × Grants e normalized at c × (d.capability_id ≡ some c.id))
        × (d.allowed ≡ false → d.capability_id ≡ none)
  unfolding authorize decision
  authorize-Grants e1 e2 e3 e4 = (
    verdict e normalized at,
    ground arith,
    Grants-verdict e normalized at,
    verdict-Grants e normalized at,
    unnamed (find (λ v. v.passed) (evaluations_of e normalized at)),
  )
    where
      unnamed :
          (g : Option CapabilityEvaluation)
          → (decision g (evaluations_of e normalized at)).allowed ≡ false
          → (decision g (evaluations_of e normalized at)).capability_id ≡ none
      unnamed none a = refl
      unnamed (some g) a = cc

module _ ⦃h : Host⦄ (e e' : Engine) (id at id' t : Text) where
  -- A revocation takes effect at its instant, for the capability that it names and for no other,
  -- and there is no second one: from then on every evaluation of that capability fails, before then
  -- every evaluation of it is what it was, and the evaluations of all others, those delegated from
  -- it among them, are what they were at every time.
  pub revoke_lem :
      prefixed (text "capability id") id (text "capability:") ≡ ok id'
      → normalize_instant explicit_offset at ≡ ok t
      → revoke e id at ≡ ok e'
      → ((c : Capability) (r : AuthorizationRequest) (now : Text)
          → c.id ≡ id'
          → text_le t now ≡ true
          → (evaluate c r now (get c.id e'.revocations)).passed ≡ false)
        × ((c : Capability) (r : AuthorizationRequest) (now : Text)
            → c.id ≡ id'
            → text_le t now ≡ false
            → evaluate c r now (get c.id e'.revocations)
              ≡ evaluate c r now (get c.id e.revocations))
        × ((c : Capability) (r : AuthorizationRequest) (now : Text)
            → c.id ≢ id'
            → evaluate c r now (get c.id e'.revocations)
              ≡ evaluate c r now (get c.id e.revocations))
        × ((later : Text) (e'' : Engine) → revoke e' id later ≢ ok e'')
  unfolding revoke revoked
  revoke_lem n i q =
      let stored : e'.revocations ≡ set id' t e.revocations = ground arith in
      (
        (λ c r now own due.
            evaluate-revoked c r now (get c.id e'.revocations)
              (ground (arith, get-set id' c.id t e.revocations))),
        (λ c r now own early.
            evaluate-live c r now (get c.id e'.revocations) (get c.id e.revocations)
              (ground (arith, get-set id' c.id t e.revocations)) (ground arith)),
        (λ c r now other.
            ap (λ o. evaluate c r now o)
              (ap (get c.id) stored ∙ get-set_ne id' c.id t e.revocations (λ s. other (sym s)))),
        (λ later e'' again. ground (arith, get-set_self id' t e.revocations)),
      )
