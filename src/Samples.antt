-- ===== src/Samples.antt =====
-- A host and records at which the tests and the instances of the theorems are read.
use Prim.Native.Nat.{ℕ, ◌+◌}
use woyengi.Base.{
  Host, IsConsistent, compare_units, some, none, [], ◌∷◌, map, leb, if◌then◌else◌, ◌&&◌, Result, ok,
  raise,
}
use woyengi.Base.Compare.{compare_units-IsComparator}
use woyengi.Base.Number.{pos, negsuc}
use woyengi.Core.{Provenance, Authority}

abbrev pub lower_ascii : ℕ → ℕ
lower_ascii c = if leb b'A' c && leb c b'Z' then c + 32 else c

-- A host that collates by code units, lowers ASCII and takes instants as they are written.
instance abbrev pub plain_host : Host
plain_host = record {
  locale_compare = compare_units;
  to_lower = map lower_ascii;
  to_iso_string = some;
  number_to_string = λ n. elim n [ pos k ↦ k ∷ [] | negsuc k ↦ b'-' ∷ k ∷ [] ];
}

pub plain_host-IsConsistent : IsConsistent plain_host
plain_host-IsConsistent = record { collation = compare_units-IsComparator }

abbrev pub no_provenance : Provenance
no_provenance = record { derived_from = []; transformations = [] }

abbrev pub some_authority : Authority
some_authority = record { level = pos 1; basis = b'b' ∷ []; principal = none }

-- The value of a result, or the other one where it threw.
abbrev pub value_or {ℓ} : {A : Type ℓ} → A → Result A → A
value_or d (ok a) = a
value_or d (raise c m) = d
