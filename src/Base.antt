-- ===== src/Base.antt =====
-- The names that the other modules share: the libraries', passed on, and those of the children.
pub mod Tests
pub mod Lists
pub mod Texts
pub mod Results
pub mod Dict
pub mod Sort
pub mod Ordered
pub mod Reordering
pub mod Compare
pub mod Mapping
pub mod Uniques
pub mod Hosts
pub mod Number
pub mod Doubles
pub mod Programs
pub mod Uris
pub mod Numbered
pub mod Keyed
pub use Tests.*
pub use Lists.*
pub use Texts.*
pub use Results.*
pub use Hosts.*
pub use Uniques.*
unfoldable pub use Lists.{keep, any, all, find, last}
unfoldable pub use Texts.{text, text_discrete, starts_with, includes, trim, compare_units}
unfoldable pub use Results.{map_result}
unfoldable pub use Hosts.{required_text, prefixed, namespaced, normalize_instant}
pub use Prim.Native.String.{String}
pub use Prim.Native.Nat.{ℕ, zero, suc, ◌+◌, ◌-◌, ◌≤◌, ◌<◌, compare, Ordering}
pub use mathlib.Core.Path.{◌≡◌, refl, sym, ap, ◌∙◌, subst, fun_ext}
pub use mathlib.Core.Logic.{◌≢◌, ◌↔◌, ◌⊎◌, inl, inr}
pub use mathlib.Core.Logic.{ite, if_pos, if_neg}
pub use mathlib.Core.Bool.{Bool, true, false, not, ◌&&◌, ◌||◌}
pub use mathlib.Core.Option.{Option, none, some}
pub use mathlib.Core.List.{List, [], ◌∷◌, ◌++◌, map}
pub use native.Mathlib.Omega.{arith}
