-- ===== src/Lsp/Uri.antt =====
-- src/lsp.rs: `uri_to_path`. The result is none where the code panics, on a slice that ends inside a character.
use fly_lang.Http.Redirect.{strip_prefix}
use fly_lang.Lsp.Lossy.{from_utf8_lossy}
use fly_lang.Prelude.{
  ℕ, ◌+◌, ◌-◌, ◌*◌, Bool, true, false, not, within, ◌==◌, if◌then◌else◌, Bytes, utf8, [], ◌∷◌,
  Option, none, some,
}

-- A byte that is not the first of its character.
unfoldable pub is_continuation : ℕ → Bool
is_continuation c = within 128 191 c

-- `is_char_boundary`, by what stands behind the place.
unfoldable pub is_boundary : Bytes → Bool
is_boundary [] = true
is_boundary (c ∷ cs) = not (is_continuation c)

unfoldable pub digit16 : ℕ → Option ℕ
digit16 c =
    if within b'0' b'9' c
    then some (c - b'0')
    else if within b'a' b'f' c
    then some (c - b'a' + 10)
    else if within b'A' b'F' c
    then some (c - b'A' + 10)
    else none

abbrev pub below_sixteen : ℕ → Option ℕ → Option ℕ
below_sixteen high none = none
below_sixteen high (some low) = some (16 * high + low)

abbrev pub hex_pair : Option ℕ → Option ℕ → Option ℕ
hex_pair none low = none
hex_pair (some high) low = below_sixteen high low

-- `u8::from_str_radix(s, 16)` of two bytes: a sign may stand before a digit.
unfoldable pub from_hex : ℕ → ℕ → Option ℕ
from_hex a b = if a == b'+' then digit16 b else hex_pair (digit16 a) (digit16 b)

abbrev pub put_byte : ℕ → Option Bytes → Option Bytes
put_byte c none = none
put_byte c (some cs) = some (c ∷ cs)

-- The loop over the bytes behind `file://`.
unfoldable pub decode : Bytes → Option Bytes
decode [] = some []
decode (c ∷ []) = some (c ∷ [])
decode (c ∷ a ∷ []) = some (c ∷ a ∷ [])
decode (c ∷ a ∷ b ∷ rest) = elim (c == b'%') [
  | false ↦ put_byte c (decode (a ∷ b ∷ rest))
  | true ↦ elim (is_boundary rest) [
    | false ↦ none
    | true ↦ elim (from_hex a b) [
      | some byte ↦ put_byte byte (decode rest)
      | none ↦ put_byte c (decode (a ∷ b ∷ rest))
    ]
  ]
]

-- The bytes as a `String`.
abbrev pub decoded : Option Bytes → Option Bytes
decoded none = none
decoded (some out) = some (from_utf8_lossy out)

unfoldable pub uri_to_path : Bytes → Option Bytes
uri_to_path uri = elim (strip_prefix (utf8 "file://") uri) [
  | some rest ↦ decoded (decode rest)
  | none ↦ some uri
]
