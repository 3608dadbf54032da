-- ===== src/Ledger.antt =====
-- packages/ledger/src/index.ts: ledger records, queries, and the in-memory canonical ledger. What a
-- record holds beyond the fields of `LedgerRecord` is its `body`; sequence numbers are naturals.
pub mod Querying
pub mod Tests
use woyengi.Base.{
  ℕ, Option, none, some, List, [], ◌∷◌, map, Text, text, Bool, true, false, Result, ok, raise,
  plain_error, range_error, ◌>>=◌, ◌>>◌, throw_if, text_le, text_lt, keep, Ordering, or_else, Host,
  required_text, normalize_instant, explicit_offset, ◌++◌, ◌&&◌,
}
use woyengi.Base.Dict.{Dict, get, set, has, member, values}
use woyengi.Base.Sort.{sort}
use woyengi.Core.{StateValue}

pub record LedgerRecord : Type 0 where
  pub id : Text
  pub kind : Text
  pub workspace_id : Option Text
  pub ledger_sequence : Option ℕ
  pub from : Text
  pub to : Option Text
  pub body : StateValue

pub record LedgerQuery : Type 0 where
  pub kinds : Option (List Text)
  pub from : Option Text
  pub until : Option Text

abbrev pub of_kind : Option (List Text) → LedgerRecord → Bool
of_kind none r = true
of_kind (some kinds) r = member r.kind kinds

abbrev pub not_before : Option Text → LedgerRecord → Bool
not_before none r = true
not_before (some t) r = text_le t r.from

abbrev pub not_later : Option Text → LedgerRecord → Bool
not_later none r = true
not_later (some t) r = text_le r.from t

-- The three filters of a query.
unfoldable pub select :
    Option (List Text) → Option Text → Option Text → List LedgerRecord → List LedgerRecord
select kinds from until rs =
    keep (not_later until) (keep (not_before from) (keep (of_kind kinds) rs))

abbrev reversed_bounds : Option Text → Option Text → Bool
reversed_bounds (some f) (some u) = text_lt u f
reversed_bounds _ _ = false

-- `InMemoryCanonicalLedger`: its records by id.
abbrev pub CanonicalLedger : Type 0
CanonicalLedger = Dict LedgerRecord

module _ ⦃h : Host⦄ where
  unfoldable pub optional_instant : Text → Option Text → Result (Option Text)
  optional_instant complaint none = ok none
  optional_instant complaint (some t) = do u ← normalize_instant complaint t; ok (some u)

  pub compare_records : LedgerRecord → LedgerRecord → Ordering
  compare_records left right =
      or_else (h.locale_compare left.from right.from) (h.locale_compare left.id right.id)

  pub append : CanonicalLedger → LedgerRecord → Result CanonicalLedger
  append l r = do
    id ← required_text (text "record id") r.id
    _k ← required_text (text "record kind") r.kind
    _i ← normalize_instant explicit_offset r.from
    throw_if (has id l) plain_error (text "canonical record already exists: " ++ id)
    ok (set id r l)

  pub append_all : CanonicalLedger → List LedgerRecord → Result CanonicalLedger
  append_all l [] = ok l
  append_all l (r ∷ rs) = do l' ← append l r; append_all l' rs

  pub replay : List LedgerRecord → Result CanonicalLedger
  replay records = append_all [] (sort compare_records records)

  pub query : CanonicalLedger → LedgerQuery → Result (List LedgerRecord)
  query l q = do
    from ← optional_instant explicit_offset q.from
    until ← optional_instant explicit_offset q.until
    throw_if (reversed_bounds from until) range_error
        (text "ledger query until must not be before from")
    ok (sort compare_records (select q.kinds from until (values l)))
