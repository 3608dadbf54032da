-- ===== src/Storage/LocalLedger.antt =====
-- packages/storage/src/index.ts: `LocalCanonicalLedger`. A file is the list that its JSON text holds;
-- `atomicWriteJson` either replaces the file or throws and leaves it, as its `rename` does: its
-- outcome is an argument. Appends run one after another, as the write queue makes them.
pub mod Sequencing
pub mod Appending
pub mod Batches
pub mod Accepting
pub mod Tests
use woyengi.Base.{
  ℕ, suc, zero, Option, none, some, List, [], ◌∷◌, ◌++◌, Text, text, Bool, true, false, not, ◌||◌,
  Result, ok, raise, plain_error, ErrorClass, ◌>>=◌, ◌>>◌, throw_if, same, or_default, is_some, leb,
  ltb, compare, Ordering, or_else, Host, requires_offset, if◌then◌else◌,
}
use woyengi.Base.Dict.{Dict, get, set, has, member, add, values}
use woyengi.Base.Sort.{sort}
use woyengi.Ledger.{LedgerRecord, LedgerQuery, select, optional_instant}

pub record LocalLedger : Type 0 where
  pub records : Dict LedgerRecord
  pub next_sequence_by_workspace : Dict ℕ

abbrev pub Disk : Type 0
Disk = List LedgerRecord

pub empty : LocalLedger
empty = record { records = []; next_sequence_by_workspace = [] }

abbrev pub workspace_scope : LedgerRecord → Text
workspace_scope r = or_default r.workspace_id (text "workspace:legacy-global")

pub max_safe_integer : ℕ
max_safe_integer = 9007199254740991

abbrev pub last_sequence : Dict ℕ → Text → ℕ
last_sequence m workspace = or_default (get workspace m) 0

-- `sequence + 1` on doubles: at 2 ^ 53 it rounds back to 2 ^ 53. No counter gets beyond that, since
-- a file with a number that is not a safe integer does not open.
abbrev pub next_sequence : ℕ → ℕ
next_sequence previous = if ltb previous 9007199254740992 then suc previous else previous

-- One round of the constructor's loop.
load_record : LocalLedger → LedgerRecord → Result LocalLedger
unfolding max_safe_integer
load_record l raw =
    let workspace = workspace_scope raw in
    let previous = last_sequence l.next_sequence_by_workspace workspace in
    let sequence = or_default raw.ledger_sequence (next_sequence previous) in
    do
      throw_if (ltb max_safe_integer sequence || ltb sequence 1 || leb sequence previous)
          plain_error (text "invalid ledger sequence for " ++ raw.id)
      throw_if (has raw.id l.records) plain_error
          (text "canonical record already exists: " ++ raw.id)
      ok (record {
        records = set raw.id (record raw { ledger_sequence = some sequence }) l.records;
        next_sequence_by_workspace = set workspace sequence l.next_sequence_by_workspace;
      })

-- The constructor, on the records of the file.
pub load : LocalLedger → Disk → Result LocalLedger
unfolding load_record
load l [] = ok l
load l (raw ∷ rest) = do l' ← load_record l raw; load l' rest

pub open_ledger : Disk → Result LocalLedger
unfolding load
open_ledger disk = load empty disk

-- The `map` that assigns the sequence numbers, with the counters after it.
pub assign : Dict ℕ → List LedgerRecord → Result (Dict ℕ × List LedgerRecord)
assign counters [] = ok (counters, [])
assign counters (r ∷ rs) = do
  throw_if (is_some r.ledger_sequence) plain_error
      (text "ledger sequence is assigned by durable storage")
  let sequence = next_sequence (last_sequence counters (workspace_scope r))
  (after, stored) ← assign (set (workspace_scope r) sequence counters) rs
  ok (after, record r { ledger_sequence = some sequence } ∷ stored)

-- The loop that refuses an id which is stored or stands twice in the batch.
pub check_ids : Dict LedgerRecord → List Text → List LedgerRecord → Result (Unit {0})
check_ids records ids [] = ok tt
check_ids records ids (r ∷ rs) = do
  throw_if (has r.id records || member r.id ids) plain_error
      (text "canonical record already exists: " ++ r.id)
  check_ids records (add r.id ids) rs

pub store_all : Dict LedgerRecord → List LedgerRecord → Dict LedgerRecord
store_all records [] = records
store_all records (r ∷ rs) = store_all (set r.id r records) rs

pub set_counters : Dict ℕ → Dict ℕ → Dict ℕ
set_counters m [] = m
set_counters m ((workspace, sequence) ∷ rest) = set_counters (set workspace sequence m) rest

-- What `atomicWriteJson` did: the new file, or the error that it threw.
pub data WriteOutcome : Type 0 where
  written : WriteOutcome
  write_failed : ErrorClass → Text → WriteOutcome

module _ ⦃h : Host⦄ where
  both_sequences : Ordering → Option ℕ → Option ℕ → Ordering
  both_sequences otherwise (some a) (some b) = compare a b
  both_sequences otherwise _ _ = otherwise

  pub compare_records : LedgerRecord → LedgerRecord → Ordering
  unfolding both_sequences
  compare_records left right =
      let by_workspace =
        or_else (h.locale_compare (workspace_scope left) (workspace_scope right))
          (or_else (h.locale_compare left.from right.from) (h.locale_compare left.id right.id)) in
      elim (same (workspace_scope left) (workspace_scope right)) [
        | true ↦ both_sequences by_workspace left.ledger_sequence right.ledger_sequence
        | false ↦ by_workspace
      ]

  -- The part of `appendBatch` behind the early return.
  commit : LocalLedger → WriteOutcome → Dict ℕ → List LedgerRecord → Result (LocalLedger × Disk)
  unfolding set_counters
  commit l (write_failed c message) counters stored = raise c message
  commit l written counters stored = ok (
    record {
      records = store_all l.records stored;
      next_sequence_by_workspace = set_counters l.next_sequence_by_workspace counters;
    },
    sort compare_records (values l.records ++ stored),
  )

  -- The ledger and the file after an append; where it throws, both are what they were.
  pub append_batch :
      LocalLedger → Disk → WriteOutcome → List LedgerRecord → Result (LocalLedger × Disk)
  unfolding commit
  append_batch l disk outcome records = do
    (counters, stored) ← assign l.next_sequence_by_workspace records
    check_ids l.records [] stored
    elim stored [ [] ↦ ok (l, disk) | r ∷ rs ↦ commit l outcome counters (r ∷ rs) ]

  pub append : LocalLedger → Disk → WriteOutcome → LedgerRecord → Result (LocalLedger × Disk)
  append l disk outcome r = append_batch l disk outcome (r ∷ [])

  pub query : LocalLedger → LedgerQuery → Result (List LedgerRecord)
  query l q = do
    from ← optional_instant requires_offset q.from
    until ← optional_instant requires_offset q.until
    ok (sort compare_records (select q.kinds from until (values l.records)))

pub get_record : LocalLedger → Text → Option LedgerRecord
get_record l id = get id l.records
