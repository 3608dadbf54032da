-- ===== src/Storage/LocalLedger/Batches.antt =====
-- packages/storage/src/index.ts: `appendBatch` keeps the ledger sequenced and counts without gaps.
use woyengi.Base.{
  ℕ, zero, suc, some, List, [], ◌∷◌, map, Text, ok, ◌≡◌, refl, arith, ◌+◌, Distinct, Host, Result,
  ◌⊎◌, inl, inr, ◌∙◌, false, ◌||◌, >>=-eq-ok, keep, length, In,
}
use woyengi.Base.Dict.{Dict, get, set, has, keys, get-set, member}
use woyengi.Ledger.{LedgerRecord}
use woyengi.Storage.LocalLedger.{
  LocalLedger, Disk, last_sequence, assign, check_ids, store_all, set_counters, WriteOutcome,
  written, write_failed, append_batch, commit,
}
use woyengi.Storage.LocalLedger.Appending.{
  IsLedger, AllNew, check_ids-AllNew, assign_lem, assign-IsSequenced, set_counters-Distinct,
  last_sequence-set_counters, numbers, in_workspace, Fits, unnumbered, assign-records,
}

-- What a batch does to the ledger: the counters of each workspace grow by the number of its
-- records in the batch; earlier records stay as they are; and the records are stored under
-- numbers that follow the counter of their workspace one by one, in the order of the batch, and
-- otherwise as they were handed in.
pub record IsAppended (l : LocalLedger) (records : List LedgerRecord) (l' : LocalLedger)
    : Type 0 where
  pub counted :
      (w : Text)
      → last_sequence l'.next_sequence_by_workspace w
        ≡ last_sequence l.next_sequence_by_workspace w + length (keep (in_workspace w) records)
  pub kept : (i : Text) (r : LedgerRecord) → get i l.records ≡ some r → get i l'.records ≡ some r
  pub numbered :
      (stored : List LedgerRecord) × (l'.records ≡ store_all l.records stored)
      × (map unnumbered stored ≡ records)
      × ((s : LedgerRecord) → In s stored → get s.id l'.records ≡ some s)
      × ((w : Text)
          → map (λ (r : LedgerRecord). r.ledger_sequence) (keep (in_workspace w) stored)
            ≡ numbers
                (suc (last_sequence l.next_sequence_by_workspace w))
                (length (keep (in_workspace w) records)))

pub store_all-kept :
    (records : Dict LedgerRecord) (rs : List LedgerRecord)
    → AllNew records rs
    → (i : Text) (r : LedgerRecord) → get i records ≡ some r
    → get i (store_all records rs) ≡ some r
unfolding store_all
store_all-kept records [] new i r h = h
store_all-kept records (x ∷ rs) (absent, new) i r h =
    store_all-kept (set x.id x records) rs new i r (ground (arith, get-set x.id i x records))

-- Each of the new records is found under its id.
pub store_all-held :
    (records : Dict LedgerRecord) (rs : List LedgerRecord)
    → AllNew records rs
    → (s : LedgerRecord) → In s rs
    → get s.id (store_all records rs) ≡ some s
unfolding store_all
store_all-held records [] new s i = absurd i
store_all-held records (x ∷ rs) (absent, new) s (inl e) =
    store_all-kept (set x.id x records) rs new s.id s (ground (arith, get-set x.id s.id x records))
store_all-held records (x ∷ rs) (absent, new) s (inr i) =
    store_all-held (set x.id x records) rs new s i

numbers-nil : (n k : ℕ) → [] ≡ numbers n k → k ≡ 0
numbers-nil n zero h = refl
numbers-nil n (suc k) h = cc

module _ ⦃h : Host⦄ (l l' : LocalLedger) (d d' : Disk) (outcome : WriteOutcome) where
  abbrev After : Dict ℕ → List LedgerRecord → Type 0
  After after stored =
      (l'.records ≡ store_all l.records stored)
      × ((w : Text) → last_sequence l'.next_sequence_by_workspace w ≡ last_sequence after w)
      × Distinct (keys l'.next_sequence_by_workspace)

  nothing_added : (i : Text) → has i l.records ≡ (has i l.records || false)
  nothing_added i = ground arith

  committed :
      (o : WriteOutcome) (after : Dict ℕ) (stored : List LedgerRecord)
      → elim stored as (λ _. Result (LocalLedger × Disk)) [
        | [] ↦ ok (l, d)
        | r ∷ rs ↦ commit l o after (r ∷ rs)
      ]
        ≡ ok (l', d')
      → ((stored ≡ []) × (l' ≡ l))
        ⊎ (l' ≡ record {
          records = store_all l.records stored;
          next_sequence_by_workspace = set_counters l.next_sequence_by_workspace after;
        })
  unfolding commit
  committed o after [] e = inl (refl, cc)
  committed written after (r ∷ rs) e = inr cc
  committed (write_failed c m) after (r ∷ rs) e = cc

  -- A batch that returns either stored nothing, or what it assigned.
  returned :
      (records : List LedgerRecord)
      → IsLedger l
      → Fits l.next_sequence_by_workspace records
      → append_batch l d outcome records ≡ ok (l', d')
      → (after : Dict ℕ) × (stored : List LedgerRecord) × (assign l.next_sequence_by_workspace
            records
          ≡ ok (after, stored))
        × AllNew l.records stored
        × After after stored
  unfolding append_batch member keep store_all
  returned records s f e =
      let ((after, stored), ea, e1) = >>=-eq-ok (assign l.next_sequence_by_workspace records) _ e in
      let (u, eb, e2) = >>=-eq-ok (check_ids l.records [] stored) _ e1 in
      (
        after,
        stored,
        ea,
        check_ids-AllNew l.records l.records [] stored nothing_added eb,
        elim (committed outcome after stored e2) as (λ _. After after stored) [
          | inl (es, el) ↦
              (rw (es, el) refl, (λ w. rw el (unchanged w after stored ea es)), rw el s.keyed)
          | inr el ↦
              let kd =
                (assign-IsSequenced _ _ after records stored s f ea
                  (check_ids-AllNew l.records l.records [] stored nothing_added eb)).keyed in
              (
                rw el refl,
                (λ w. rw el (
                    last_sequence-set_counters w l.next_sequence_by_workspace after records stored
                      kd f ea)),
                rw el (set_counters-Distinct l.next_sequence_by_workspace after s.keyed),
              )
        ],
      )
    where
      unchanged :
          (w : Text) (after : Dict ℕ) (stored : List LedgerRecord)
          → assign l.next_sequence_by_workspace records ≡ ok (after, stored)
          → stored ≡ []
          → last_sequence l.next_sequence_by_workspace w ≡ last_sequence after w
      unchanged w after stored ea es =
          let (p, q) = assign_lem w l.next_sequence_by_workspace after records stored f ea in
          let none_of : []
              ≡ numbers (suc (last_sequence l.next_sequence_by_workspace w))
                  (length (keep (in_workspace w) records)) =
            rw (← p, es) refl in
          ground (arith, q, numbers-nil _ _ none_of)

  -- A batch that is appended to a sequenced ledger, and that takes no counter beyond the largest
  -- safe integer, leaves a sequenced ledger: every stored record has a number up to the counter of
  -- its workspace, and no number is used twice in a workspace.
  pub append_batch-IsLedger :
      (records : List LedgerRecord)
      → IsLedger l
      → Fits l.next_sequence_by_workspace records
      → append_batch l d outcome records ≡ ok (l', d')
      → IsLedger l'
  append_batch-IsLedger records s f e =
      let (after, stored, ea, new, (er, same_counts, kd)) = returned records s f e in
      let q =
        assign-IsSequenced l.records l.next_sequence_by_workspace after records stored s f ea new in
      record {
        keyed = kd;
        bounded = λ r i. let (n, f, b) = q.bounded r (rw er at i) in (n, f, rw (same_counts _) b);
        unique = λ r t i j. q.unique r t (rw er at i) (rw er at j);
      }

  -- A batch that returns on a sequenced ledger, and that takes no counter beyond the largest safe
  -- integer, keeps every earlier record under its id, raises the counter of each workspace by the
  -- number of its records in the batch, and stores the batch's records under their ids, changed
  -- only by the numbers, which follow the counter in order and without a gap.
  pub append_batch-IsAppended :
      (records : List LedgerRecord)
      → IsLedger l
      → Fits l.next_sequence_by_workspace records
      → append_batch l d outcome records ≡ ok (l', d')
      → IsAppended l records l'
  append_batch-IsAppended records s f e =
      let (after, stored, ea, new, (er, same_counts, kd)) = returned records s f e in
      record {
        counted = λ w. let (p, q) = assign_lem w _ after records stored f ea in same_counts w ∙ q;
        kept = λ i r g. rw er (store_all-kept l.records stored new i r g);
        numbered = (
          stored,
          er,
          assign-records _ after records stored ea,
          (λ x i. rw er (store_all-held l.records stored new x i)),
          λ w. let (p, q) = assign_lem w _ after records stored f ea in p,
        );
      }
