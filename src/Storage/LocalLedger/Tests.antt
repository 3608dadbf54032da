-- ===== src/Storage/LocalLedger/Tests.antt =====
-- Runs of the durable ledger, and its theorems at a batch of two records.
use woyengi.Storage.LocalLedger.Appending.{AllNew}
use woyengi.Storage.LocalLedger.Accepting.{append_batch_total, IsAccepted}
use woyengi.Storage.LocalLedger.{append, query, get_record}
use woyengi.Base.{
  none, some, List, [], ◌∷◌, text, text_discrete, ok, raise, plain_error, ◌≡◌, refl, keep, arith,
  map, length, ◌≤◌, Bool,
}
use woyengi.Base.Dict.{get, set, member, add, values}
use woyengi.Base.Sort.{sort, insert, insert_all}
use woyengi.Ledger.{LedgerRecord, select, optional_instant}
use woyengi.Ledger.Tests.{some_record}
use woyengi.Storage.LocalLedger.{
  LocalLedger, Disk, empty, append_batch, open_ledger, load, load_record, assign, check_ids,
  store_all, set_counters, commit, written, write_failed, compare_records, max_safe_integer,
  both_sequences,
}
use woyengi.Storage.LocalLedger.Appending.{IsLedger, open_ledger-IsLedger, Fits, in_workspace}
use woyengi.Storage.LocalLedger.Batches.{IsAppended, append_batch-IsLedger, append_batch-IsAppended}
use woyengi.Samples.{plain_host, value_or}

abbrev batch : List LedgerRecord
batch = some_record (text "b") (text "2Z") ∷ some_record (text "a") (text "1Z") ∷ []

abbrev appended : LocalLedger × Disk
appended = value_or (empty, []) (append_batch empty [] written batch)

appends : append_batch empty [] written batch ≡ ok (appended.0, appended.1)
unfolding append_batch assign check_ids empty commit store_all set_counters get set member add text
    text_discrete
appends = refl

-- The file that the batch leaves opens to the ledger that it leaves.
reopens : open_ledger appended.1 ≡ ok appended.0
unfolding append_batch assign check_ids empty commit store_all set_counters get set member add text
    text_discrete open_ledger load load_record sort insert insert_all compare_records both_sequences
    max_safe_integer
reopens = refl

opens_empty : open_ledger [] ≡ ok empty
unfolding open_ledger load
opens_empty = refl

open_ledger-IsLedger_example : IsLedger appended.0
open_ledger-IsLedger_example = open_ledger-IsLedger appended.1 appended.0 reopens

length-keep : (p : LedgerRecord → Bool) (a b : LedgerRecord) → length (keep p (a ∷ b ∷ [])) ≤ 2
unfolding keep
length-keep p a b = ground arith

room : Fits empty.next_sequence_by_workspace batch
unfolding empty max_safe_integer get
room w =
    let fits =
      length-keep (in_workspace w) (some_record (text "b") (text "2Z"))
        (some_record (text "a") (text "1Z")) in
    omega arith

append_batch-IsLedger_example : IsLedger appended.0
append_batch-IsLedger_example =
    append_batch-IsLedger empty appended.0 [] appended.1 written batch
      (open_ledger-IsLedger [] empty opens_empty) room appends

append_batch-IsAppended_example : IsAppended empty batch appended.0
append_batch-IsAppended_example =
    append_batch-IsAppended empty appended.0 [] appended.1 written batch
      (open_ledger-IsLedger [] empty opens_empty) room appends

-- A failed write leaves what was there, and a numbered record is refused.
refuses :
    (append empty [] (write_failed plain_error (text "disk")) (some_record (text "b") (text "2Z"))
      ≡ raise plain_error (text "disk"))
    × (append empty [] written
          (record (some_record (text "b") (text "2Z")) { ledger_sequence = some 1 })
        ≡ raise plain_error (text "ledger sequence is assigned by durable storage"))
unfolding append append_batch assign check_ids commit empty get member text text_discrete
refuses = (refl, refl)

reads :
    (get_record appended.0 (text "a")
      ≡ some (record (some_record (text "a") (text "1Z")) { ledger_sequence = some 2 }))
    × (query appended.0 (record { kinds = some []; from = none; until = none }) ≡ ok [])
unfolding get_record query append_batch assign check_ids empty commit store_all set_counters get set
    member add text text_discrete sort insert_all select keep optional_instant compare_records
reads = (refl, refl)

all_new : AllNew empty.records batch
unfolding empty get set text text_discrete
all_new = (refl, (refl, tt))

append_batch_total_example :
    (l' : LocalLedger) × (d' : Disk) × (append_batch empty [] written batch ≡ ok (l', d'))
    × IsAccepted empty [] batch l' d'
append_batch_total_example = append_batch_total empty [] batch (refl, (refl, tt)) all_new

-- A batch of two behind the largest safe integer gets one number twice.
abbrev full : LocalLedger
full = record {
  records = [];
  next_sequence_by_workspace = (text "workspace:legacy-global", 9007199254740991) ∷ [];
}

abbrev overflowing : LocalLedger × Disk
overflowing = value_or (empty, []) (append_batch full [] written batch)

repeats :
    map (λ (r : LedgerRecord). r.ledger_sequence) (values overflowing.0.records)
    ≡ some 9007199254740992 ∷ some 9007199254740992 ∷ []
unfolding append_batch assign check_ids empty commit store_all set_counters get set member add text
    text_discrete
repeats = refl
