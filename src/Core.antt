-- ===== src/Core.antt =====
-- packages/core/src/index.ts: the record types that the other packages share. Object types are
-- records, unions of literals are data types; `readonly` and freezing leave no trace in a value.
pub mod Creation
use woyengi.Base.{Option, List, Text, Bool}
use woyengi.Base.Number.{Number, Double}

pub data RecordKind : Type 0 where
  observation claim event relationship decision evidence : RecordKind
  authority_assessment lifecycle_transition artifact : RecordKind

pub data LifecycleStatus : Type 0 where
  provisional verified rejected superseded retracted invalidated archived : LifecycleStatus

pub record TimeInterval : Type 0 where
  pub from : Text
  pub to : Option Text

pub record ProvenanceReference : Type 0 where
  pub kind : RecordKind
  pub id : Text

pub record Provenance : Type 0 where
  pub derived_from : List ProvenanceReference
  pub transformations : List Text

pub record Authority : Type 0 where
  pub level : Number
  pub basis : Text
  pub principal : Option Text

-- The JSON values; an object is the list of its entries.
mutual
  pub data StateValue : Type 0 where
    null : StateValue
    boolean : Bool → StateValue
    number : Number → StateValue
    string : Text → StateValue
    array : Values → StateValue
    object : Entries → StateValue

  pub data Values : Type 0 where
    nil : Values
    cons : StateValue → Values → Values

  pub data Entries : Type 0 where
    end : Entries
    entry : Text → StateValue → Entries → Entries

pub record ClaimRecord : Type 0 where
  pub id : Text
  pub subject : Text
  pub predicate : Text
  pub object_value : StateValue
  pub valid_time : TimeInterval
  pub transaction_time : TimeInterval
  pub observation_ids : List Text
  pub evidence_ids : List Text
  pub provenance : Provenance
  pub authority : Authority
  pub confidence : Double
  pub lifecycle : LifecycleStatus

pub record LifecycleTransitionRecord : Type 0 where
  pub id : Text
  pub target_id : Text
  pub status : LifecycleStatus
  pub reason : Text
  pub transaction_time : TimeInterval
  pub provenance : Provenance
  pub authority : Authority

pub data CanonicalRecord : Type 0 where
  a_claim : ClaimRecord → CanonicalRecord
  a_transition : LifecycleTransitionRecord → CanonicalRecord

pub record EvidenceRecord : Type 0 where
  pub id : Text
  pub source_id : Text
  pub locator : Text
  pub transaction_time : TimeInterval
  pub provenance : Provenance
  pub lifecycle : LifecycleStatus
