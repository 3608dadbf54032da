-- ===== src/State/CanonicalValue.antt =====
-- packages/state/src/index.ts: `canonicalValue`, with the quoting of `JSON.stringify`. The host
-- prints numbers. An object's entries are printed first and then sorted by key, which gives the
-- text that sorting first gives.
use Prim.Native.Nat.{◌/◌, ◌%◌}
use woyengi.Base.{
  ℕ, ◌+◌, ◌-◌, List, [], ◌∷◌, ◌++◌, map, Text, text, Bool, ◌&&◌, leb, ltb, ◌==◌, if◌then◌else◌,
  Host,
}
use woyengi.Base.Sort.{sort}
use woyengi.Core.{
  StateValue, null, boolean, number, string, array, object, Values, nil, cons, Entries, end, entry,
}

hex_digit : ℕ → ℕ
hex_digit d = if ltb d 10 then b'0' + d else b'a' + (d - 10)

unicode_escape : ℕ → Text
unfolding hex_digit
unicode_escape c =
    b'\\'
    ∷ b'u'
    ∷ hex_digit (c / 4096)
    ∷ hex_digit (c / 256 % 16)
    ∷ hex_digit (c / 16 % 16)
    ∷ hex_digit (c % 16)
    ∷ []

abbrev is_high : ℕ → Bool
is_high c = leb 0xd800 c && leb c 0xdbff

abbrev is_low : ℕ → Bool
is_low c = leb 0xdc00 c && leb c 0xdfff

-- The escape of one code unit that is no part of a surrogate pair.
escape_unit : ℕ → Text
unfolding unicode_escape
escape_unit c =
    if c == b'"'
    then b'\\' ∷ b'"' ∷ []
    else if c == b'\\'
    then b'\\' ∷ b'\\' ∷ []
    else if c == 0x8
    then b'\\' ∷ b'b' ∷ []
    else if c == 0xc
    then b'\\' ∷ b'f' ∷ []
    else if c == 0xa
    then b'\\' ∷ b'n' ∷ []
    else if c == 0xd
    then b'\\' ∷ b'r' ∷ []
    else if c == 0x9
    then b'\\' ∷ b't' ∷ []
    else if ltb c 0x20
    then unicode_escape c
    else if is_high c
    then unicode_escape c
    else if is_low c
    then unicode_escape c
    else c ∷ []

-- A high surrogate followed by a low one is a pair, and stays as it is.
escape : Text → Text
unfolding escape_unit
escape [] = []
escape (c ∷ []) = escape_unit c
escape (c ∷ d ∷ s) =
    let pair = c ∷ d ∷ escape s in
    let single = escape_unit c ++ escape (d ∷ s) in if is_high c && is_low d then pair else single

unfoldable pub quote : Text → Text
unfolding escape
quote s = b'"' ∷ escape s ++ b'"' ∷ []

-- `parts.join(",")`
join_commas : List Text → Text
join_commas [] = []
join_commas (x ∷ []) = x
join_commas (x ∷ y ∷ ys) = x ++ b',' ∷ join_commas (y ∷ ys)

module _ ⦃h : Host⦄ where
  object_text : List (Text × Text) → Text
  unfolding quote join_commas
  object_text entries =
      b'{'
        ∷ join_commas (
            map (λ e. quote e.0 ++ b':' ∷ e.1)
              (sort (λ left right. h.locale_compare left.0 right.0) entries))
      ++ b'}' ∷ []

  unfoldable mutual
    unfolding quote object_text join_commas

    pub canonical_value : StateValue → Text
    canonical_value null = text "null"
    canonical_value (boolean b) = if b then text "true" else text "false"
    canonical_value (number n) = h.number_to_string n
    canonical_value (string s) = quote s
    canonical_value (array vs) = b'[' ∷ join_commas (canonical_values vs) ++ b']' ∷ []
    canonical_value (object es) = object_text (canonical_entries es)

    pub canonical_values : Values → List Text
    canonical_values nil = []
    canonical_values (cons v vs) = canonical_value v ∷ canonical_values vs

    pub canonical_entries : Entries → List (Text × Text)
    canonical_entries end = []
    canonical_entries (entry k v es) = (k, canonical_value v) ∷ canonical_entries es
