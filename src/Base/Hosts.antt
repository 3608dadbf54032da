-- ===== src/Base/Hosts.antt =====
-- What the program takes of its host, and the validation helpers that every package repeats.
-- The host gives collation, lower case and the calendar; they are arguments of the model.
use Prim.Native.Nat.{ℕ, Ordering}
use mathlib.Core.Bool.{Bool, false, not, ◌&&◌, ◌||◌}
use mathlib.Core.List.{[], ◌∷◌, ◌++◌, reverse}
use mathlib.Core.Option.{Option, none, some}
use woyengi.Base.Number.{Number}
use woyengi.Base.Results.{Result, ok, raise, type_error, ◌>>=◌, ◌>>◌, throw_if}
use woyengi.Base.Sort.{IsComparator}
use woyengi.Base.Tests.{leb, ◌==◌}
use woyengi.Base.Texts.{Text, text, trim, starts_with, includes, same}

pub record Host : Type 0 where
  -- `a.localeCompare(b)`
  pub locale_compare : Text → Text → Ordering
  -- `s.toLocaleLowerCase("en-US")`
  pub to_lower : Text → Text
  -- `new Date(s).toISOString()`, or none where the date is not a number
  pub to_iso_string : Text → Option Text
  -- `JSON.stringify(n)` of a finite number
  pub number_to_string : Number → Text

-- ECMA-402 wants `localeCompare` to be a consistent comparator.
pub record IsConsistent (h : Host) : Type 0 where
  pub collation : IsComparator h.locale_compare

is_digit : ℕ → Bool
is_digit c = leb b'0' c && leb c b'9'

-- `/(?:Z|[+-]\d{2}:\d{2})$/i`, read from the end.
offset_reversed : Text → Bool
unfolding is_digit
offset_reversed (a ∷ b ∷ c ∷ d ∷ e ∷ f ∷ _) =
    a == b'Z'
    || a == b'z'
    || (is_digit a
        && is_digit b
        && c == b':'
        && is_digit d
        && is_digit e
        && (f == b'+' || f == b'-'))
offset_reversed (a ∷ _) = a == b'Z' || a == b'z'
offset_reversed [] = false

has_offset : Text → Bool
unfolding offset_reversed
has_offset s = offset_reversed (reverse s)

unfoldable pub required_text : Text → Text → Result Text
required_text name value =
    let normalized = trim value in
    do throw_if (same normalized []) type_error (name ++ text " must not be empty"); ok normalized

unfoldable pub prefixed : Text → Text → Text → Result Text
unfolding required_text
prefixed name value prefix = do
  normalized ← required_text name value
  throw_if (not (starts_with normalized prefix)) type_error
      (name ++ text " must start with " ++ prefix)
  ok normalized

unfoldable pub namespaced : Text → Text → Result Text
unfolding required_text
namespaced name value = do
  normalized ← required_text name value
  throw_if (not (includes normalized (text ":"))) type_error
      (name ++ text " must be namespace-qualified")
  ok normalized

module _ ⦃h : Host⦄ where
  iso_or_throw : Text → Option Text → Result Text
  iso_or_throw value none = raise type_error (text "invalid timestamp: " ++ value)
  iso_or_throw value (some iso) = ok iso

  -- The packages differ in the first message, which is an argument.
  unfoldable pub normalize_instant : Text → Text → Result Text
  unfolding has_offset iso_or_throw
  normalize_instant complaint value = do
    throw_if (not (has_offset value)) type_error (complaint ++ value)
    iso_or_throw value (h.to_iso_string value)

abbrev pub explicit_offset : Text
explicit_offset = text "timestamp must include an explicit UTC offset: "

abbrev pub requires_offset : Text
requires_offset = text "timestamp requires an offset: "
