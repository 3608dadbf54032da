-- ===== src/Storage/LocalLedger/Accepting.antt =====
-- packages/storage/src/index.ts: when `appendBatch` accepts a batch.
use woyengi.Base.{
  ℕ, none, some, List, [], ◌∷◌, Text, false, ◌||◌, Result, ok, ◌≡◌, refl, arith, All, Host, ap, sym,
  ◌∙◌, ◌≢◌, map, In, ◌++◌,
}
use woyengi.Base.Dict.{Dict, set, has, member, add, get-set, member-add, get, values}
use woyengi.Ledger.{LedgerRecord}
use woyengi.Storage.LocalLedger.{
  LocalLedger, Disk, workspace_scope, last_sequence, assign, check_ids, written, append_batch,
  commit, next_sequence, store_all, compare_records,
}
use woyengi.Storage.LocalLedger.Appending.{AllNew, check_ids-AllNew, unnumbered, assign-records}
use woyengi.Storage.LocalLedger.Batches.{store_all-held, store_all-kept}
use woyengi.Base.Sort.{sort-perm}
use mathlib.Core.List.{Perm}

abbrev pub Unnumbered : LedgerRecord → Type 0
Unnumbered r = r.ledger_sequence ≡ none

assign_total :
    (counters : Dict ℕ) (rs : List LedgerRecord)
    → All Unnumbered rs
    → (after : Dict ℕ) × (stored : List LedgerRecord) × (assign counters rs ≡ ok (after, stored))
      × ((records : Dict LedgerRecord) (ids : List Text)
          → check_ids records ids stored ≡ check_ids records ids rs)
unfolding assign check_ids
assign_total counters [] _ = (counters, [], refl, λ records ids. refl)
assign_total counters (r ∷ rs) (u, us) =
    let n = next_sequence (last_sequence counters (workspace_scope r)) in
    let (after, stored, e, same_ids) = assign_total (set (workspace_scope r) n counters) rs us in
    (
      after,
      record r { ledger_sequence = some n } ∷ stored,
      rw (u, e) refl,
      λ records ids. rw (same_ids records (add r.id ids)) refl,
    )

AllNew-check_ids :
    (records m : Dict LedgerRecord) (ids : List Text) (rs : List LedgerRecord)
    → ((i : Text) → has i m ≡ (has i records || member i ids))
    → AllNew m rs
    → check_ids records ids rs ≡ ok tt
unfolding check_ids
AllNew-check_ids records m ids [] f new = refl
AllNew-check_ids records m ids (r ∷ rs) f (absent, new) =
    let fresh : (has r.id records || member r.id ids) ≡ false = ground (arith, f r.id) in
    rw fresh (
      AllNew-check_ids records (set r.id r m) (add r.id ids) rs
        (λ i. ground (arith, get-set r.id i r m, member-add r.id i ids, f i)) new)

-- What an accepted batch leaves. The ledger holds each record of the batch under its id, changed
-- only by the number that it got, and every earlier record; and the file holds, once each, the
-- records that the ledger held and those of the batch. An empty batch does not write it.
pub record IsAccepted (l : LocalLedger) (d : Disk) (records : List LedgerRecord) (l' : LocalLedger)
    (d' : Disk) : Type 0 where
  pub stored : List LedgerRecord
  pub same_records : map unnumbered stored ≡ records
  pub held : (s : LedgerRecord) → In s stored → get s.id l'.records ≡ some s
  pub kept : (i : Text) (r : LedgerRecord) → get i l.records ≡ some r → get i l'.records ≡ some r
  pub unwritten : records ≡ [] → d' ≡ d
  pub file : records ≢ [] → Perm d' (values l.records ++ stored)

map-nil : (rs : List LedgerRecord) → map unnumbered rs ≡ [] → rs ≡ []
map-nil [] e = refl
map-nil (r ∷ rs) e = absurd (cc)

module _ ⦃h : Host⦄ (l : LocalLedger) (d : Disk) where
  committed_total :
      (after : Dict ℕ) (stored : List LedgerRecord)
      → (l' : LocalLedger) × (d' : Disk) × (elim stored as (λ _. Result (LocalLedger × Disk)) [
        | [] ↦ ok (l, d)
        | r ∷ rs ↦ commit l written after (r ∷ rs)
      ]
          ≡ ok (l', d'))
        × (l'.records ≡ store_all l.records stored)
        × (stored ≡ [] → d' ≡ d)
        × (stored ≢ [] → Perm d' (values l.records ++ stored))
  unfolding commit store_all
  committed_total after [] = (l, d, refl, refl, (λ e. refl), (λ n. absurd (n refl)))
  committed_total after (r ∷ rs) = (
    _,
    _,
    refl,
    refl,
    (λ e. absurd (cc)),
    (λ n. sort-perm compare_records (values l.records ++ r ∷ rs)),
  )

  nothing_added : (i : Text) → has i l.records ≡ (has i l.records || member i [])
  unfolding member
  nothing_added i = ground arith

  -- A batch of records that carry no number, whose ids are neither stored nor repeated in the
  -- batch, is always appended where the file is written: each of its records is stored under its
  -- id, changed only by a number, the earlier records stay, and the file, unless the batch is
  -- empty, holds them all, once each.
  pub append_batch_total :
      (records : List LedgerRecord)
      → All Unnumbered records
      → AllNew l.records records
      → (l' : LocalLedger) × (d' : Disk) × (append_batch l d written records ≡ ok (l', d'))
        × IsAccepted l d records l' d'
  unfolding append_batch
  append_batch_total records us new =
      let (after, stored, e, same_ids) = assign_total l.next_sequence_by_workspace records us in
      let (l', d', k, er, idle, wrote) = committed_total after stored in
      let checked = AllNew-check_ids l.records l.records [] records nothing_added new in
      let checked' : check_ids l.records [] stored ≡ ok tt = same_ids l.records [] ∙ checked in
      let fresh = check_ids-AllNew l.records l.records [] stored nothing_added checked' in
      let batch = assign-records l.next_sequence_by_workspace after records stored e in
      (
        l',
        d',
        rw (e, checked') k,
        record {
          stored = stored;
          same_records = batch;
          held = λ s i. ap (get s.id) er ∙ store_all-held l.records stored fresh s i;
          kept = λ i r g. ap (get i) er ∙ store_all-kept l.records stored fresh i r g;
          unwritten = λ none_of. idle (map-nil stored (batch ∙ none_of));
          file = λ some_of. wrote (λ q. some_of (sym batch ∙ ap (map unnumbered) q));
        },
      )
