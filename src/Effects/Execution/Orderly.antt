-- ===== src/Effects/Execution/Orderly.antt =====
-- packages/effects/src/index.ts: what every method keeps of an execution, also when it throws.
use woyengi.Base.{
  suc, ◌≤◌, Option, some, List, [], ◌∷◌, ◌++◌, Text, ◌≡◌, refl, arith, ◌⊎◌, length, Host, is_some,
  true,
}
use woyengi.Base.Numbered.{IsNumbered, append-IsNumbered}
use woyengi.Base.Programs.{attempt-keeps, current-keeps}
use woyengi.Effects.Records.{
  ManifestStatus, authorized, ExecutionReceipt, VerifiedSemanticCommit, JournalEntry,
  JournalEntryKind, ExecutionAggregate, succeeded,
}
use woyengi.Effects.Execution.{append}

abbrev pub HasSucceeded : Option ExecutionReceipt → Type 0
HasSucceeded o = (r : ExecutionReceipt) × (o ≡ some r) × (r.status ≡ succeeded)

pub record IsOrderlyOf (status : ManifestStatus) (receipt : Option ExecutionReceipt)
    (commits : List VerifiedSemanticCommit) (journal : List JournalEntry) : Type 0 where
  pub single : length commits ≤ 1
  pub numbered : IsNumbered (λ (e : JournalEntry). e.sequence) 0 journal
  pub governed : is_some receipt ≡ true → status ≡ authorized
  pub backed : (commits ≡ []) ⊎ HasSucceeded receipt

abbrev pub IsOrderly : ExecutionAggregate → Type 0
IsOrderly a = IsOrderlyOf a.manifest.status a.receipt a.semantic_commits a.journal

-- Appending an entry changes the journal alone.
module _ ⦃h : Host⦄ where
  pub append-keeps :
      (J : ExecutionAggregate → Type 0) (kind : JournalEntryKind) (id at : Text)
      (a : ExecutionAggregate)
      → J a
      → ((e : JournalEntry)
          → e.sequence ≡ suc (length a.journal)
          → J (record a { journal = a.journal ++ e ∷ [] }))
      → J (append kind id at a).0
  unfolding append
  append-keeps J kind id at a j step =
      current-keeps J a _
        (attempt-keeps J a _ _ j (λ encoded _. attempt-keeps J a _ _ j (λ from _. step _ refl)))

  pub append-IsOrderly :
      (kind : JournalEntryKind) (id at : Text) (a : ExecutionAggregate)
      → IsOrderly a
      → IsOrderly (append kind id at a).0
  append-IsOrderly kind id at a i = append-keeps IsOrderly kind id at a i (λ e k. record {
    single = i.single;
    numbered =
        append-IsNumbered (λ (x : JournalEntry). x.sequence) 0 a.journal e i.numbered
          (omega (arith, k));
    governed = i.governed;
    backed = i.backed;
  })
