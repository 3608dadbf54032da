-- ===== src/Ledger/Querying.antt =====
-- packages/ledger/src/index.ts: what `query` answers.
use woyengi.Base.{
  Option, List, Text, true, false, ok, ◌≡◌, refl, In, In_keep, In-keep, Host, ◌↔◌, IsConsistent,
  explicit_offset, some, none, text_le, Ordering, ◌≢◌,
}
use woyengi.Base.Dict.{values, member-In, member_of_In}
use woyengi.Base.Sort.{sort, In-sort, In_sort, sort-Sorted, IsComparator}
use woyengi.Base.Ordered.{Ordered, Sorted-Ordered}
use woyengi.Base.Compare.{lexicographic, by_key, Then, Then-or_else}
use woyengi.Ledger.{
  LedgerRecord, LedgerQuery, CanonicalLedger, of_kind, not_before, not_later, select,
  reversed_bounds, optional_instant, compare_records, query,
}

-- A stored record, of one of the kinds where kinds are given, not before the lower bound and not after the upper one.
pub record IsSelected (stored : List LedgerRecord) (kinds : Option (List Text))
    (from until : Option Text) (r : LedgerRecord) : Type 0 where
  pub held : In r stored
  pub kind_fits : (ks : List Text) → kinds ≡ some ks → In r.kind ks
  pub late_enough : (t : Text) → from ≡ some t → text_le t r.from ≡ true
  pub early_enough : (t : Text) → until ≡ some t → text_le r.from t ≡ true

of_kind-In :
    (kinds : Option (List Text)) (r : LedgerRecord)
    → of_kind kinds r ≡ true ↔ ((ks : List Text) → kinds ≡ some ks → In r.kind ks)
of_kind-In none r = ((λ e ks q. absurd (cc)), (λ f. refl))
of_kind-In (some kinds) r = (
  (λ e ks q. let same_kinds : kinds ≡ ks = cc in rw (← same_kinds) (member-In r.kind kinds e)),
  (λ f. member_of_In r.kind kinds (f kinds refl)),
)

not_before-text_le :
    (from : Option Text) (r : LedgerRecord)
    → not_before from r ≡ true ↔ ((t : Text) → from ≡ some t → text_le t r.from ≡ true)
not_before-text_le none r = ((λ e t q. absurd (cc)), (λ f. refl))
not_before-text_le (some u) r =
    ((λ e t q. let same_bound : u ≡ t = cc in rw (← same_bound) e), (λ f. f u refl))

not_later-text_le :
    (until : Option Text) (r : LedgerRecord)
    → not_later until r ≡ true ↔ ((t : Text) → until ≡ some t → text_le r.from t ≡ true)
not_later-text_le none r = ((λ e t q. absurd (cc)), (λ f. refl))
not_later-text_le (some u) r =
    ((λ e t q. let same_bound : u ≡ t = cc in rw (← same_bound) e), (λ f. f u refl))

pub select-IsSelected :
    (kinds : Option (List Text)) (from until : Option Text) (rs : List LedgerRecord)
    (r : LedgerRecord)
    → In r (select kinds from until rs) ↔ IsSelected rs kinds from until r
unfolding select
select-IsSelected kinds from until rs r = (
  (λ i.
      let (i1, c) = In-keep (not_later until) r _ i in
      let (i2, b) = In-keep (not_before from) r _ i1 in
      let (i3, a) = In-keep (of_kind kinds) r rs i2 in
      record {
        held = i3;
        kind_fits = (of_kind-In kinds r).0 a;
        late_enough = (not_before-text_le from r).0 b;
        early_enough = (not_later-text_le until r).0 c;
      }),
  (λ s.
      In_keep (not_later until) r _
        (In_keep (not_before from) r _
          (In_keep (of_kind kinds) r rs s.held ((of_kind-In kinds r).1 s.kind_fits))
          ((not_before-text_le from r).1 s.late_enough))
        ((not_later-text_le until r).1 s.early_enough)),
)

module _ ⦃h : Host⦄ where
  -- The transaction time comes first, and of two equal ones the id does not come later.
  abbrev pub Precedes : LedgerRecord → LedgerRecord → Type 0
  Precedes a b = Then (h.locale_compare a.from b.from) (h.locale_compare a.id b.id ≢ Ordering.gt)

  compare_records-Precedes : (a b : LedgerRecord) → compare_records a b ≢ Ordering.gt → Precedes a b
  unfolding compare_records
  compare_records-Precedes a b n =
      Then-or_else (h.locale_compare a.from b.from) (h.locale_compare a.id b.id) _ (λ m. m) n

module _ ⦃h : Host⦄ (c : IsConsistent h) where
  pub compare_records-IsComparator : IsComparator compare_records
  unfolding compare_records
  compare_records-IsComparator =
      lexicographic (λ a b. h.locale_compare a.from b.from) (λ a b. h.locale_compare a.id b.id)
        (by_key (λ (r : LedgerRecord). r.from) h.locale_compare c.collation)
        (by_key (λ (r : LedgerRecord). r.id) h.locale_compare c.collation)

  -- A query whose bounds are valid instants in order returns, and its answer holds exactly the
  -- stored records of the kinds asked for between the two bounds, both included, each with a
  -- transaction time before that of every later one, or the same and then an id that is not after
  -- it, in the host's collation, which has to be a consistent comparator.
  pub query_lem :
      (l : CanonicalLedger) (q : LedgerQuery) (from until : Option Text)
      → optional_instant explicit_offset q.from ≡ ok from
      → optional_instant explicit_offset q.until ≡ ok until
      → reversed_bounds from until ≡ false
      → (rs : List LedgerRecord) × (query l q ≡ ok rs)
        × ((r : LedgerRecord) → In r rs ↔ IsSelected (values l) q.kinds from until r)
        × Ordered Precedes rs
  unfolding query
  query_lem l q from until ef eu e =
      let rs = select q.kinds from until (values l) in
      (
        sort compare_records rs,
        rw (ef, eu, e) refl,
        (λ r.
            let (to, back) = select-IsSelected q.kinds from until (values l) r in
            (
              (λ i. to (In-sort compare_records r rs i)),
              (λ s. In_sort compare_records r rs (back s)),
            )),
        Sorted-Ordered compare_records (λ _. Unit) Precedes
            (λ a b _ _ n. compare_records-Precedes a b n) (sort compare_records rs) (λ _ _. tt)
            (sort-Sorted compare_records-IsComparator rs),
      )
