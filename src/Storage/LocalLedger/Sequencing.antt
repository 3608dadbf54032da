-- ===== src/Storage/LocalLedger/Sequencing.antt =====
-- packages/storage/src/index.ts: ids and sequence numbers of the durable ledger.
use woyengi.Base.{
  ℕ, none, some, [], ◌∷◌, Text, text_discrete, ◌≡◌, refl, sym, arith, ◌≤◌, ◌<◌, In, Distinct, inl,
  inr, ◌⊎◌, ap, subst, ◌∙◌,
}
use woyengi.Base.Dict.{Dict, get, set, values, get-set, In_values-set, keys}
use woyengi.Ledger.{LedgerRecord}
use woyengi.Storage.LocalLedger.{workspace_scope, last_sequence, set_counters}

module _ {V : Type 0} where
  keys-set : (j k : Text) (v : V) (m : Dict V) → In j (keys (set k v m)) → (j ≡ k) ⊎ In j (keys m)
  unfolding set
  keys-set j k v [] i = ground arith
  keys-set j k v ((i', w) ∷ m) i = ground (arith, keys-set j k v m)

  pub Distinct-set :
      (k : Text) (v : V) (m : Dict V) → Distinct (keys m) → Distinct (keys (set k v m))
  unfolding set
  Distinct-set k v [] d = ((λ i. i), tt)
  Distinct-set k v ((j, w) ∷ m) (f, d) = elim (text_discrete j k) [
    | yes p ↦
        let e : set k v ((j, w) ∷ m) ≡ (j, v) ∷ m = ground arith in
        subst (λ z. Distinct (keys z)) (sym e) (f, d)
    | no p ↦
        let e : set k v ((j, w) ∷ m) ≡ (j, w) ∷ set k v m = ground arith in
        subst (λ z. Distinct (keys z)) (sym e)
          ((λ i. elim (keys-set j k v m i) [ inl e ↦ p e | inr e ↦ f e ]), Distinct-set k v m d)
  ]

  get_not_in : (k : Text) (m : Dict V) → (In k (keys m) → ⊥) → get k m ≡ none
  unfolding get
  get_not_in k [] f = refl
  get_not_in k ((j, w) ∷ m) f = elim (text_discrete j k) [
    | yes p ↦ absurd (f (inl (sym p)))
    | no p ↦ ground (arith, get_not_in k m (λ i. f (inr i)))
  ]

pub get-set_counters :
    (w : Text) (m c : Dict ℕ)
    → Distinct (keys c)
    → get w (set_counters m c) ≡ elim (get w c) [ none ↦ get w m | some n ↦ some n ]
unfolding set_counters get
get-set_counters w m [] d = refl
get-set_counters w m ((k, n) ∷ c) (f, d) = elim (text_discrete k w) [
  | yes p ↦ ground (arith, get-set_counters w (set k n m) c d, get_not_in k c f, get-set k w n m)
  | no p ↦ ground (arith, get-set_counters w (set k n m) c d, get-set k w n m)
]

-- What the ledger keeps: each workspace has one counter; every stored record carries a number up
-- to the counter of its workspace; and no two records of a workspace carry the same number.
pub record IsSequenced (records : Dict LedgerRecord) (counters : Dict ℕ) : Type 0 where
  pub keyed : Distinct (keys counters)
  pub bounded :
      (r : LedgerRecord)
      → In r (values records)
      → (n : ℕ) × (r.ledger_sequence ≡ some n) × (n ≤ last_sequence counters (workspace_scope r))
  pub unique :
      (r s : LedgerRecord)
      → In r (values records)
      → In s (values records)
      → workspace_scope r ≡ workspace_scope s
      → r.ledger_sequence ≡ s.ledger_sequence
      → r ≡ s

pub last_sequence-set :
    (k w : Text) (n : ℕ) (m : Dict ℕ)
    → last_sequence (set k n m) w
      ≡ elim (text_discrete k w) [ yes p ↦ n | no p ↦ last_sequence m w ]
last_sequence-set k w n m = ground (arith, get-set k w n m)

module _ (records : Dict LedgerRecord) (counters : Dict ℕ) (r : LedgerRecord) (n : ℕ) where
  -- A record whose number is above the counter of its workspace keeps the ledger sequenced.
  pub push-IsSequenced :
      IsSequenced records counters
      → r.ledger_sequence ≡ some n
      → last_sequence counters (workspace_scope r) < n
      → IsSequenced (set r.id r records) (set (workspace_scope r) n counters)
  push-IsSequenced s e lt = record {
    keyed = Distinct-set (workspace_scope r) n counters s.keyed;
    bounded = λ x i. elim (In_values-set x r.id r records i) [
      | inl p ↦ (
        n,
        ap (λ (y : LedgerRecord). y.ledger_sequence) p ∙ e,
        rw p (ground (arith, last_sequence-set (workspace_scope r) (workspace_scope r) n counters)),
      )
      | inr j ↦
          let (k, q, b) = s.bounded x j in
          (
            k,
            q,
            ground (arith, last_sequence-set (workspace_scope r) (workspace_scope x) n counters),
          )
    ];
    unique = λ x y i j w q.
        either x y w q (In_values-set x r.id r records i) (In_values-set y r.id r records j);
  }
    where
      above :
          (x : LedgerRecord)
          → In x (values records)
          → workspace_scope x ≡ workspace_scope r
          → x.ledger_sequence ≡ r.ledger_sequence
          → ⊥
      above x i w q =
          let (k, p, b) = s.bounded x i in
          let same_number : some k ≡ some n = sym p ∙ q ∙ e in
          let b' : k ≤ last_sequence counters (workspace_scope r) = rw w at b in ground arith

      either :
          (x y : LedgerRecord)
          → workspace_scope x ≡ workspace_scope y
          → x.ledger_sequence ≡ y.ledger_sequence
          → (x ≡ r) ⊎ In x (values records)
          → (y ≡ r) ⊎ In y (values records)
          → x ≡ y
      either x y w q (inl a) (inl b) = a ∙ sym b
      either x y w q (inl a) (inr j) = absurd (
          above y j (sym w ∙ ap (λ z. workspace_scope z) a)
            (sym q ∙ ap (λ (z : LedgerRecord). z.ledger_sequence) a))
      either x y w q (inr i) (inl b) = absurd (
          above x i (w ∙ ap (λ z. workspace_scope z) b)
            (q ∙ ap (λ (z : LedgerRecord). z.ledger_sequence) b))
      either x y w q (inr i) (inr j) = s.unique x y i j w q
