-- ===== src/Identity/Registry/Invariant.antt =====
-- packages/identity/src/index.ts: what holds of every registry that operations have built.
use woyengi.Base.{
  Option, none, some, List, [], ◌∷◌, Text, text_discrete, true, ok, ◌≡◌, refl, ◌∙◌, arith, ◌≢◌, inl,
  inr, Bool-cases, >>=-eq-ok, or_default, All-append, subst, All, Result-cases,
}
use woyengi.Base.Dict.{get, set, delete, member, add, member-add, get-set, get-delete}
use woyengi.Core.{Authority}
use woyengi.Identity.Operations.{
  Operation, OperationBase, entity_created, alias_added, match_proposed, entities_merged,
  entity_split,
}
use woyengi.Identity.Registry.{
  Registry, empty, apply, apply_all, apply_merge, dispatch, canonical, add_alias,
}
use woyengi.Identity.Registry.Resolution.{
  IsAcyclic, Chain-canonical, Chain-set, Chain-set_apart, Chain-split,
}

pub record IsWellFormed (r : Registry) : Type 0 where
  pub acyclic : IsAcyclic r.merged_into
  pub known_targets : (e p : Text) → get e r.merged_into ≡ some p → member p r.entities ≡ true
  pub known_owners :
      (a : Text) (owners : List Text)
      → get a r.aliases ≡ some owners
      → All (λ o. member o r.entities ≡ true) owners

pub empty-IsWellFormed : IsWellFormed empty
unfolding empty get
empty-IsWellFormed = record {
  acyclic = λ e. (0, e, (refl, refl));
  known_targets = λ e p h. absurd (cc);
  known_owners = λ a os h. absurd (cc);
}

-- What a successful merge has checked, and the registry that it leaves.
pub record Merged (r r' : Registry) (c m : Text) : Type 0 where
  pub canonical_known : member c r.entities ≡ true
  pub merged_known : member m r.entities ≡ true
  pub root_c : Text
  pub root_m : Text
  pub resolves_c : canonical r.merged_into c ≡ ok root_c
  pub resolves_m : canonical r.merged_into m ≡ ok root_m
  pub apart : root_c ≢ root_m
  pub merges : r'.merged_into ≡ set m c r.merged_into
  pub entities_kept : r'.entities ≡ r.entities
  pub aliases_kept : r'.aliases ≡ r.aliases

apply_merge-Merged :
    (r r' : Registry) (o : Operation) (c m : Text) (p : Option Text)
    → apply_merge r o c m p ≡ ok r'
    → Merged r r' c m
unfolding apply_merge
apply_merge-Merged r r' o c m p h = elim (Result-cases (canonical r.merged_into c)) [
  | inr (e, t, bad) ↦ absurd (ground arith)
  | inl (rc, ec) ↦ elim (Result-cases (canonical r.merged_into m)) [
    | inr (e, t, bad) ↦ absurd (ground arith)
    | inl (rm, em) ↦ record {
      canonical_known = ground arith;
      merged_known = ground arith;
      root_c = rc;
      root_m = rm;
      resolves_c = ec;
      resolves_m = em;
      apart = ground arith;
      merges = ground arith;
      entities_kept = ground arith;
      aliases_kept = ground arith;
    }
  ]
]

apply-dispatch :
    (r r' : Registry) (o : Operation)
    → apply r o ≡ ok r'
    → (r1 : Registry) × (dispatch r o ≡ ok r1)
      × (r'.merged_into ≡ r1.merged_into)
      × (r'.entities ≡ r1.entities)
      × (r'.aliases ≡ r1.aliases)
unfolding apply
apply-dispatch r r' o h = elim (Result-cases (dispatch r o)) [
  | inl (r1, e) ↦ (r1, e, ground arith, ground arith, ground arith)
  | inr (c, t, e) ↦ absurd (ground arith)
]

-- What a successful operation does to the entities, the aliases and the merges.
record Keeps (r r' : Registry) : Type 0 where
  entities_grow : (e : Text) → member e r.entities ≡ true → member e r'.entities ≡ true
  aliases_kept : r'.aliases ≡ r.aliases
  merges_kept : r'.merged_into ≡ r.merged_into

All-mono : {P Q : Text → Type 0} (xs : List Text) → ((x : Text) → P x → Q x) → All P xs → All Q xs
All-mono [] f _ = tt
All-mono (x ∷ xs) f (p, h) = (f x p, All-mono xs f h)

Keeps-IsWellFormed : (r r' : Registry) → Keeps r r' → IsWellFormed r → IsWellFormed r'
Keeps-IsWellFormed r r' k w = record {
  acyclic = rw k.merges_kept w.acyclic;
  known_targets = λ e p h. k.entities_grow p (w.known_targets e p (rw k.merges_kept at h));
  known_owners =
      λ a os h. All-mono os (λ o. k.entities_grow o) (w.known_owners a os (rw k.aliases_kept at h));
}

Merged-IsWellFormed :
    (r r' : Registry) (c m : Text) → Merged r r' c m → IsWellFormed r → IsWellFormed r'
Merged-IsWellFormed r r' c m g w = record {
  acyclic = rw g.merges (λ e.
      let (nc, ch) = Chain-canonical r.merged_into c g.root_c w.acyclic g.resolves_c in
      let (nm, dh) = Chain-canonical r.merged_into m g.root_m w.acyclic g.resolves_m in
      let (n, s, eh) = w.acyclic e in
      Chain-set r.merged_into c m nc g.root_c
        (Chain-set_apart r.merged_into c m nm nc g.root_m c g.root_c dh g.apart ch) n e s eh);
  known_targets = λ e p h. rw g.entities_kept (
      ground
        (arith, get-set m e c r.merged_into, w.known_targets e p, g.canonical_known, g.merges));
  known_owners = λ a os h. rw g.entities_kept (w.known_owners a os (rw g.aliases_kept at h));
}

Split-IsWellFormed :
    (r r' : Registry) (e : Text)
    → r'.merged_into ≡ delete e r.merged_into
    → r'.entities ≡ r.entities
    → r'.aliases ≡ r.aliases
    → IsWellFormed r
    → IsWellFormed r'
Split-IsWellFormed r r' e merges entities aliases w = record {
  acyclic = rw merges (λ x. let (n, s, h) = w.acyclic x in Chain-split r.merged_into e n x s h);
  known_targets = λ x p h.
      rw entities (ground (arith, get-delete e x r.merged_into, w.known_targets x p, merges));
  known_owners = λ a os h. rw entities (w.known_owners a os (rw aliases at h));
}

All-add : (P : Text → Type 0) (o : Text) (os : List Text) → P o → All P os → All P (add o os)
unfolding add
All-add P o os p h = elim (Bool-cases (member o os)) [
  | inl e ↦ rw e h
  | inr e ↦ rw e (All-append P os (o ∷ []) h (p, tt))
]

or_default-All :
    (P : Text → Type 0) (x : Option (List Text))
    → ((os : List Text) → x ≡ some os → All P os)
    → All P (or_default x [])
or_default-All P none f = tt
or_default-All P (some os) f = f os refl

Alias-IsWellFormed :
    (r r' : Registry) (a e : Text)
    → member e r.entities ≡ true
    → r'.merged_into ≡ r.merged_into
    → r'.entities ≡ r.entities
    → r'.aliases ≡ add_alias a e r.aliases
    → IsWellFormed r
    → IsWellFormed r'
unfolding add_alias
Alias-IsWellFormed r r' a e known merges entities aliases w = record {
  acyclic = rw merges w.acyclic;
  known_targets = λ x p h. rw entities (w.known_targets x p (rw merges at h));
  known_owners = λ b os h. rw entities (elim (text_discrete a b) [
    | yes q ↦
        subst (All (λ o. member o r.entities ≡ true))
          (ground (arith, get-set a b (add e (or_default (get a r.aliases) [])) r.aliases))
          (All-add (λ o. member o r.entities ≡ true) e (or_default (get a r.aliases) []) known
            (or_default-All (λ o. member o r.entities ≡ true) (get a r.aliases) (w.known_owners a)))
    | no q ↦
        w.known_owners b os
          (ground (arith, get-set a b (add e (or_default (get a r.aliases) [])) r.aliases))
  ]);
}

dispatch-IsWellFormed :
    (r r' : Registry) (o : Operation) → dispatch r o ≡ ok r' → IsWellFormed r → IsWellFormed r'
unfolding dispatch
dispatch-IsWellFormed r r' (entity_created b e) h w =
    Keeps-IsWellFormed r r'
      (record {
        entities_grow = λ x k. ground (arith, member-add e x r.entities);
        aliases_kept = ground arith;
        merges_kept = ground arith;
      })
      w
dispatch-IsWellFormed r r' (alias_added b e a k) h w =
    Alias-IsWellFormed r r' a e (ground arith) (ground arith) (ground arith) (ground arith) w
dispatch-IsWellFormed r r' (match_proposed b left right s t) h w =
    Keeps-IsWellFormed r r'
      (record {
        entities_grow = λ x k. ground arith;
        aliases_kept = ground arith;
        merges_kept = ground arith;
      })
      w
dispatch-IsWellFormed r r' (entities_merged b c m p a) h w =
    Merged-IsWellFormed r r' c m (apply_merge-Merged r r' (entities_merged b c m p a) c m p h) w
dispatch-IsWellFormed r r' (entity_split b e a) h w =
    Split-IsWellFormed r r' e (ground arith) (ground arith) (ground arith) w

pub apply-IsWellFormed :
    (r r' : Registry) (o : Operation) → apply r o ≡ ok r' → IsWellFormed r → IsWellFormed r'
apply-IsWellFormed r r' o h w =
    let (r1, d, m, e, a) = apply-dispatch r r' o h in
    Keeps-IsWellFormed r1 r'
      (record { entities_grow = λ x k. rw e k; aliases_kept = a; merges_kept = m })
      (dispatch-IsWellFormed r r1 o d w)

pub apply_all-IsWellFormed :
    (r r' : Registry) (os : List Operation)
    → apply_all r os ≡ ok r'
    → IsWellFormed r
    → IsWellFormed r'
unfolding apply_all
apply_all-IsWellFormed r r' [] h w = subst IsWellFormed (ground arith) w
apply_all-IsWellFormed r r' (o ∷ os) h w =
    let (r1, e, k) = >>=-eq-ok (apply r o) (λ x. apply_all x os) h in
    apply_all-IsWellFormed r1 r' os k (apply-IsWellFormed r r1 o e w)

-- A successful `apply` of a merge.
pub apply-Merged :
    (r r' : Registry) (b : OperationBase) (c m : Text) (p : Option Text) (a : Authority)
    → apply r (entities_merged b c m p a) ≡ ok r'
    → Merged r r' c m
unfolding dispatch
apply-Merged r r' b c m p a h =
    let (r1, d, mi, e, al) = apply-dispatch r r' (entities_merged b c m p a) h in
    let g = apply_merge-Merged r r1 (entities_merged b c m p a) c m p d in
    record {
      canonical_known = g.canonical_known;
      merged_known = g.merged_known;
      root_c = g.root_c;
      root_m = g.root_m;
      resolves_c = g.resolves_c;
      resolves_m = g.resolves_m;
      apart = g.apart;
      merges = mi ∙ g.merges;
      entities_kept = e ∙ g.entities_kept;
      aliases_kept = al ∙ g.aliases_kept;
    }

-- A successful `apply` of a split.
pub apply-Split :
    (r r' : Registry) (b : OperationBase) (e : Text) (a : Authority)
    → apply r (entity_split b e a) ≡ ok r'
    → r'.merged_into ≡ delete e r.merged_into
unfolding dispatch
apply-Split r r' b e a h =
    let (r1, d, mi, en, al) = apply-dispatch r r' (entity_split b e a) h in ground arith
