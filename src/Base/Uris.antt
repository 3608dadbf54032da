-- ===== src/Base/Uris.antt =====
-- `encodeURIComponent`: the UTF-8 bytes of each code point but the unreserved ones, in hexadecimal;
-- a lone surrogate is a URIError.
use Prim.Native.Nat.{ℕ, ◌+◌, ◌-◌, ◌*◌, ◌/◌, ◌%◌}
use mathlib.Core.Bool.{Bool, true, false, ◌&&◌, ◌||◌}
use mathlib.Core.List.{[], ◌∷◌, ◌++◌}
use woyengi.Base.Results.{Result, ok, raise, uri_error, ◌>>=◌}
use woyengi.Base.Tests.{ltb, leb, ◌==◌, if◌then◌else◌}
use woyengi.Base.Texts.{Text, text}

between : ℕ → ℕ → ℕ → Bool
between low high c = leb low c && leb c high

is_unreserved : ℕ → Bool
unfolding between
is_unreserved c =
    between b'a' b'z' c
    || between b'A' b'Z' c
    || between b'0' b'9' c
    || c == b'-'
    || c == b'_'
    || c == b'.'
    || c == b'!'
    || c == b'~'
    || c == b'*'
    || c == 39
    || c == b'('
    || c == b')'

hex : ℕ → ℕ
hex d = if ltb d 10 then b'0' + d else b'A' + (d - 10)

escaped : ℕ → Text
unfolding hex
escaped byte = b'%' ∷ hex (byte / 16) ∷ hex (byte % 16) ∷ []

-- The bytes of a code point in UTF-8.
utf8 : ℕ → Text
unfolding escaped
utf8 c =
    if ltb c 0x80
    then escaped c
    else if ltb c 0x800
    then escaped (0xc0 + c / 64) ++ escaped (0x80 + c % 64)
    else if ltb c 0x10000
    then escaped (0xe0 + c / 4096) ++ (escaped (0x80 + (c / 64) % 64) ++ escaped (0x80 + c % 64))
    else escaped (0xf0 + c / 262144)
      ++ (escaped (0x80 + (c / 4096) % 64)
          ++ (escaped (0x80 + (c / 64) % 64) ++ escaped (0x80 + c % 64)))

unfoldable pub encode_uri_component : Text → Result Text
unfolding between is_unreserved utf8
encode_uri_component [] = ok []
encode_uri_component (a ∷ []) =
    if between 0xd800 0xdfff a
    then raise uri_error (text "URI malformed")
    else ok (if is_unreserved a then a ∷ [] else utf8 a)
encode_uri_component (a ∷ b ∷ rest) =
    let single = encode_uri_component (b ∷ rest) in
    let paired = encode_uri_component rest in
    elim (between 0xd800 0xdbff a) [
      | true ↦
          if between 0xdc00 0xdfff b
          then (do tail ← paired; ok (utf8 (0x10000 + (a - 0xd800) * 1024 + (b - 0xdc00)) ++ tail))
          else raise uri_error (text "URI malformed")
      | false ↦
          if between 0xdc00 0xdfff a
          then raise uri_error (text "URI malformed")
          else (do tail ← single; ok ((if is_unreserved a then a ∷ [] else utf8 a) ++ tail))
    ]
