-- ===== src/Storage/LocalLedger/Appending.antt =====
-- packages/storage/src/index.ts: what `open` and `appendBatch` do to the ledger.
use woyengi.Base.{
  ℕ, suc, zero, Option, none, some, List, [], ◌∷◌, map, Text, Bool, ◌||◌, ok, ◌≡◌, refl, arith, ◌<◌,
  Distinct, same, or_default, is_some, >>=-eq-ok, throw_if->>-eq-ok, keep, ◌+◌, leb, ltb, length,
  text_discrete, ◌≤◌, same_refl, false, ap, sym,
}
use woyengi.Base.Dict.{Dict, get, set, has, member, add, get-set, member-add, keys}
use woyengi.Ledger.{LedgerRecord}
use woyengi.Storage.LocalLedger.{
  LocalLedger, Disk, empty, workspace_scope, last_sequence, load_record, load, open_ledger, assign,
  check_ids, store_all, set_counters, max_safe_integer, next_sequence,
}
use woyengi.Storage.LocalLedger.Sequencing.{
  IsSequenced, push-IsSequenced, get-set_counters, last_sequence-set, Distinct-set,
}

abbrev pub IsLedger : LocalLedger → Type 0
IsLedger l = IsSequenced l.records l.next_sequence_by_workspace

load_record-IsLedger :
    (l l' : LocalLedger) (r : LedgerRecord) → IsLedger l → load_record l r ≡ ok l' → IsLedger l'
unfolding load_record
load_record-IsLedger l l' r s h =
    let last = last_sequence l.next_sequence_by_workspace (workspace_scope r) in
    let n = or_default r.ledger_sequence (next_sequence last) in
    let stored : LocalLedger = record {
      records = set r.id (record r { ledger_sequence = some n }) l.records;
      next_sequence_by_workspace = set (workspace_scope r) n l.next_sequence_by_workspace;
    } in
    let (fits, h1) = throw_if->>-eq-ok (ltb max_safe_integer n || ltb n 1 || leb n last) _ _ _ h in
    let (new, h2) = throw_if->>-eq-ok (has r.id l.records) _ _ (ok stored) h1 in
    let lt : last < n = ground arith in
    let e : l' ≡ stored = cc in
    rw e (
      push-IsSequenced l.records l.next_sequence_by_workspace
        (record r { ledger_sequence = some n }) n s refl lt)

load-IsLedger : (l l' : LocalLedger) (d : Disk) → IsLedger l → load l d ≡ ok l' → IsLedger l'
unfolding load
load-IsLedger l l' [] s h = let e : l' ≡ l = cc in rw e s
load-IsLedger l l' (r ∷ rs) s h =
    let (m, e, k) = >>=-eq-ok (load_record l r) _ h in
    load-IsLedger m l' rs (load_record-IsLedger l m r s e) k

-- Whatever the file holds, a ledger that opens on it is sequenced.
pub open_ledger-IsLedger : (d : Disk) (l : LocalLedger) → open_ledger d ≡ ok l → IsLedger l
unfolding open_ledger empty
open_ledger-IsLedger d l h =
    load-IsLedger empty l d
      (record { keyed = tt; bounded = λ r i. absurd i; unique = λ r s i. absurd i }) h

-- No id of the records is stored, and none stands twice among them.
abbrev pub AllNew : Dict LedgerRecord → List LedgerRecord → Type 0
AllNew records [] = Unit
AllNew records (r ∷ rs) = (get r.id records ≡ none) × AllNew (set r.id r records) rs

pub check_ids-AllNew :
    (records m : Dict LedgerRecord) (ids : List Text) (rs : List LedgerRecord)
    → ((i : Text) → has i m ≡ (has i records || member i ids))
    → check_ids records ids rs ≡ ok tt
    → AllNew m rs
unfolding check_ids
check_ids-AllNew records m ids [] f h = tt
check_ids-AllNew records m ids (r ∷ rs) f h =
    let (new, k) = throw_if->>-eq-ok (has r.id records || member r.id ids) _ _ _ h in
    let absent : get r.id m ≡ none = ground (arith, f r.id) in
    (
      absent,
      check_ids-AllNew records (set r.id r m) (add r.id ids) rs
          (λ i. ground (arith, get-set r.id i r m, member-add r.id i ids, f i)) k,
    )

-- The numbers from `n` on, one for each of `k` records.
abbrev pub numbers : ℕ → ℕ → List (Option ℕ)
numbers n zero = []
numbers n (suc k) = some n ∷ numbers (suc n) k

abbrev pub in_workspace : Text → LedgerRecord → Bool
in_workspace w r = same (workspace_scope r) w

-- The counters have room for the records up to the largest safe integer.
abbrev pub Fits : Dict ℕ → List LedgerRecord → Type 0
Fits counters records =
    (w : Text)
    → last_sequence counters w + length (keep (in_workspace w) records) ≤ max_safe_integer

-- Where the first record fits, its number is one more, and the others fit behind it.
Fits-step :
    (counters : Dict ℕ) (r : LedgerRecord) (rs : List LedgerRecord)
    → Fits counters (r ∷ rs)
    → (next_sequence (last_sequence counters (workspace_scope r))
        ≡ suc (last_sequence counters (workspace_scope r)))
      × Fits
          (set
            (workspace_scope r)
            (next_sequence (last_sequence counters (workspace_scope r)))
            counters)
          rs
unfolding keep max_safe_integer
Fits-step counters r rs f =
    let last = last_sequence counters (workspace_scope r) in
    let one : next_sequence last ≡ suc last =
      ground (arith, f (workspace_scope r), same_refl (workspace_scope r)) in
    (
      one,
      λ w.
          let at_w = last_sequence-set (workspace_scope r) w (next_sequence last) counters in
          elim (text_discrete (workspace_scope r) w) [
            | yes t ↦ ground (arith, f w, at_w, one)
            | no t ↦ ground (arith, f w, at_w, one)
          ],
    )

-- The numbers that a batch gives in one workspace follow its counter without a gap, in the order
-- of the batch, and the counter ends at the last of them.
pub assign_lem :
    (w : Text) (counters after : Dict ℕ) (rs stored : List LedgerRecord)
    → Fits counters rs
    → assign counters rs ≡ ok (after, stored)
    → (map (λ (r : LedgerRecord). r.ledger_sequence) (keep (in_workspace w) stored)
        ≡ numbers (suc (last_sequence counters w)) (length (keep (in_workspace w) rs)))
      × (last_sequence after w ≡ last_sequence counters w + length (keep (in_workspace w) rs))
unfolding assign keep
assign_lem w counters after [] stored f h = ground arith
assign_lem w counters after (r ∷ rs) stored f h =
    let n = next_sequence (last_sequence counters (workspace_scope r)) in
    let (one, behind) = Fits-step counters r rs f in
    let (fresh, h1) = throw_if->>-eq-ok (is_some r.ledger_sequence) _ _ _ h in
    let ((a, s), e, k) = >>=-eq-ok (assign (set (workspace_scope r) n counters) rs) _ h1 in
    let (p, q) = assign_lem w (set (workspace_scope r) n counters) a rs s behind e in
    let ea : after ≡ a = cc in
    let es : stored ≡ record r { ledger_sequence = some n } ∷ s = cc in
    rw (ea, es)
      (elim (text_discrete (workspace_scope r) w) [
        | yes t ↦
            let at_w = last_sequence-set (workspace_scope r) w n counters in
            ground (arith, p, q, at_w, one)
        | no t ↦
            let at_w = last_sequence-set (workspace_scope r) w n counters in
            ground (arith, p, q, at_w, one)
      ])

pub assign-IsSequenced :
    (records : Dict LedgerRecord) (counters after : Dict ℕ) (rs stored : List LedgerRecord)
    → IsSequenced records counters
    → Fits counters rs
    → assign counters rs ≡ ok (after, stored)
    → AllNew records stored
    → IsSequenced (store_all records stored) after
unfolding assign store_all
assign-IsSequenced records counters after [] stored s f h new =
    let ea : after ≡ counters = cc in let es : stored ≡ [] = cc in rw (ea, es) s
assign-IsSequenced records counters after (r ∷ rs) stored s f h new =
    let n = next_sequence (last_sequence counters (workspace_scope r)) in
    let (one, behind) = Fits-step counters r rs f in
    let (fresh, h1) = throw_if->>-eq-ok (is_some r.ledger_sequence) _ _ _ h in
    let ((a, t), e, k) = >>=-eq-ok (assign (set (workspace_scope r) n counters) rs) _ h1 in
    let ea : after ≡ a = cc in
    let es : stored ≡ record r { ledger_sequence = some n } ∷ t = cc in
    let (absent, rest) = rw es at new in
    rw (ea, es)
      (assign-IsSequenced (set r.id (record r { ledger_sequence = some n }) records)
        (set (workspace_scope r) n counters) a rs t
        (push-IsSequenced records counters (record r { ledger_sequence = some n }) n s refl
          (omega arith))
        behind e rest)

-- The record as it is handed in, without a number.
abbrev pub unnumbered : LedgerRecord → LedgerRecord
unnumbered r = record r { ledger_sequence = none }

is_some-none : {A : Type 0} (o : Option A) → is_some o ≡ false → o ≡ none
is_some-none none h = refl
is_some-none (some a) h = absurd (cc)

unnumbered-Unnumbered : (r : LedgerRecord) → r.ledger_sequence ≡ none → unnumbered r ≡ r
unnumbered-Unnumbered r e = ap (λ o. record r { ledger_sequence = o }) (sym e)

-- The records that a batch gives numbers to are the batch's.
pub assign-records :
    (counters after : Dict ℕ) (rs stored : List LedgerRecord)
    → assign counters rs ≡ ok (after, stored)
    → map unnumbered stored ≡ rs
unfolding assign
assign-records counters after [] stored h = ground arith
assign-records counters after (r ∷ rs) stored h =
    let n = next_sequence (last_sequence counters (workspace_scope r)) in
    let (fresh, h1) = throw_if->>-eq-ok (is_some r.ledger_sequence) _ _ _ h in
    let ((a, s), e, k) = >>=-eq-ok (assign (set (workspace_scope r) n counters) rs) _ h1 in
    let es : stored ≡ record r { ledger_sequence = some n } ∷ s = cc in
    let blank : unnumbered r ≡ r = unnumbered-Unnumbered r (is_some-none r.ledger_sequence fresh) in
    let rest = assign-records (set (workspace_scope r) n counters) a rs s e in rw es (ground arith)

pub set_counters-Distinct : (m c : Dict ℕ) → Distinct (keys m) → Distinct (keys (set_counters m c))
unfolding set_counters
set_counters-Distinct m [] d = d
set_counters-Distinct m ((w, n) ∷ c) d = set_counters-Distinct (set w n m) c (Distinct-set w n m d)

-- The counters that a batch leaves are those that it counted with.
pub last_sequence-set_counters :
    (w : Text) (counters after : Dict ℕ) (rs stored : List LedgerRecord)
    → Distinct (keys after)
    → Fits counters rs
    → assign counters rs ≡ ok (after, stored)
    → last_sequence (set_counters counters after) w ≡ last_sequence after w
last_sequence-set_counters w counters after rs stored d f h =
    let (_, q) = assign_lem w counters after rs stored f h in
    ground (arith, get-set_counters w counters after d, q)
