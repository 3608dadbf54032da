-- ===== src/Ledger/Tests.antt =====
-- The query theorem at a ledger of two records.
use woyengi.Ledger.{replay}
use woyengi.Base.{
  none, some, List, [], ◌∷◌, Text, text, ok, ◌≡◌, refl, In, ◌↔◌, normalize_instant, compare_units,
}
use woyengi.Base.Dict.{values}
use woyengi.Base.Ordered.{Ordered}
use woyengi.Base.Sort.{sort, insert, insert_all}
use woyengi.Core.{null}
use woyengi.Ledger.{
  LedgerRecord, LedgerQuery, CanonicalLedger, append_all, query, compare_records, optional_instant,
}
use woyengi.Ledger.Querying.{IsSelected, Precedes, query_lem}
use woyengi.Samples.{plain_host, plain_host-IsConsistent, value_or}

abbrev pub some_record : Text → Text → LedgerRecord
some_record id from = record {
  id = id;
  kind = text "claim";
  workspace_id = none;
  ledger_sequence = none;
  from = from;
  to = none;
  body = null;
}

abbrev ledger : CanonicalLedger
ledger =
    value_or []
      (append_all [] (some_record (text "b") (text "2Z") ∷ some_record (text "a") (text "1Z") ∷ []))

abbrev since : LedgerQuery
since = record { kinds = some (text "claim" ∷ []); from = some (text "2Z"); until = none }

query_lem_example :
    (rs : List LedgerRecord) × (query ledger since ≡ ok rs)
    × ((r : LedgerRecord)
        → In r rs ↔ IsSelected (values ledger) (some (text "claim" ∷ [])) (some (text "2Z")) none r)
    × Ordered Precedes rs
unfolding optional_instant normalize_instant text
query_lem_example =
    query_lem plain_host-IsConsistent ledger since (some (text "2Z")) none refl refl refl

replays :
    replay (some_record (text "b") (text "2Z") ∷ some_record (text "a") (text "1Z") ∷ [])
    ≡ append_all [] (some_record (text "a") (text "1Z") ∷ some_record (text "b") (text "2Z") ∷ [])
unfolding replay compare_records sort insert insert_all compare_units text
replays = refl
