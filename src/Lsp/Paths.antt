-- ===== src/Lsp/Paths.antt =====
-- The paths that `uri_to_path` of src/lsp.rs reads from the URIs of an editor.
use fly_lang.Http.Redirect.{strip_prefix}
use fly_lang.Lsp.Text.{is_char, AreChars, text_of, from_utf8_lossy-text_of}
use fly_lang.Lsp.Uri.{
  is_continuation, is_boundary, digit16, from_hex, put_byte, decode, decoded, uri_to_path,
}
use fly_lang.Prelude.{
  encode_char, List, ℕ, ◌+◌, ◌-◌, ◌*◌, ◌/◌, ◌%◌, ◌<◌, Bool, true, false, not, ltb, within, ◌||◌,
  ◌==◌, if◌then◌else◌, Bool-cases, Bytes, utf8, [], ◌∷◌, ◌++◌, some, ◌≡◌, refl, ap, ◌∙◌, arith, inl,
  inr,
}

-- The characters that RFC 3986 lets stand in a path as they are, and the slash.
abbrev pub is_unreserved : ℕ → Bool
is_unreserved c =
    within b'a' b'z' c
    || within b'A' b'Z' c
    || within b'/' b'9' c
    || c == b'-'
    || c == b'.'
    || c == b'_'
    || c == b'~'

abbrev upper_digit : ℕ → ℕ
upper_digit d = if ltb d 10 then b'0' + d else b'A' + (d - 10)

-- A path as an editor writes it, each other byte by two digits.
unfoldable pub encode : Bytes → Bytes
encode [] = []
encode (c ∷ cs) = elim (is_unreserved c) [
  | true ↦ c ∷ encode cs
  | false ↦ b'%' ∷ upper_digit (c / 16) ∷ upper_digit (c % 16) ∷ encode cs
]

abbrev pub path_to_uri : Bytes → Bytes
path_to_uri path = utf8 "file://" ++ encode path

abbrev pub AreBytes : Bytes → Type 0
AreBytes [] = Unit
AreBytes (c ∷ cs) = (c < 256) × AreBytes cs

digit16-upper_digit : (d : ℕ) → d < 16 → digit16 (upper_digit d) ≡ some d
unfolding digit16
digit16-upper_digit d h = ground arith

no_sign : (d : ℕ) → d < 16 → (upper_digit d == b'+') ≡ false
no_sign d h = ground arith

high_digit : (c : ℕ) → c < 256 → c / 16 < 16
high_digit c h = omega (arith, h)

low_digit : (c : ℕ) → c % 16 < 16
low_digit c = omega arith

both_digits : (c : ℕ) → 16 * (c / 16) + c % 16 ≡ c
both_digits c = omega arith

from_hex-digits :
    (c : ℕ) → c < 256 → from_hex (upper_digit (c / 16)) (upper_digit (c % 16)) ≡ some c
unfolding from_hex
from_hex-digits c h =
    let high = digit16-upper_digit (c / 16) (high_digit c h) in
    let low = digit16-upper_digit (c % 16) (low_digit c) in
    rw (no_sign (c / 16) (high_digit c h), high, low) (ap some (both_digits c))

-- What stands for itself is no continuation of a character.
unreserved_first : (c : ℕ) → is_unreserved c ≡ true → not (is_continuation c) ≡ true
unfolding is_continuation
unreserved_first c h = ground arith

is_boundary-encode : (p : Bytes) → is_boundary (encode p) ≡ true
unfolding is_boundary encode is_continuation
is_boundary-encode [] = refl
is_boundary-encode (c ∷ cs) = elim (Bool-cases (is_unreserved c)) [
  | inl e ↦ rw (e, encode, is_boundary) (unreserved_first c e)
  | inr e ↦ rw (e, encode, is_boundary) refl
]

-- A byte that is no per cent sign is read as it is, at any distance from the end.
decode_plain : (c : ℕ) (s : Bytes) → (c == b'%') ≡ false → decode (c ∷ s) ≡ put_byte c (decode s)
unfolding decode
decode_plain c [] e = refl
decode_plain c (a ∷ []) e = refl
decode_plain c (a ∷ b ∷ s) e = rw (e, decode) refl

plain_sign : (c : ℕ) → is_unreserved c ≡ true → (c == b'%') ≡ false
plain_sign c h = ground arith

decode_escape :
    (a b c : ℕ) (s : Bytes)
    → is_boundary s ≡ true
    → from_hex a b ≡ some c
    → decode (b'%' ∷ a ∷ b ∷ s) ≡ put_byte c (decode s)
unfolding decode
decode_escape a b c s e i = rw (e, decode) (rw (i, decode) refl)

decode-encode : (p : Bytes) → AreBytes p → decode (encode p) ≡ some p
unfolding encode
decode-encode [] h = unfold decode in refl
decode-encode (c ∷ cs) (h, hs) =
    let rest = ap (put_byte c) (decode-encode cs hs) in
    elim (Bool-cases (is_unreserved c)) [
      | inl e ↦ rw (e, encode) (decode_plain c (encode cs) (plain_sign c e) ∙ rest)
      | inr e ↦
          rw (e, encode)
            (decode_escape _ _ c (encode cs) (is_boundary-encode cs) (from_hex-digits c h) ∙ rest)
    ]

byte_of : (c : ℕ) (s : Bytes) → is_char c ≡ true → AreBytes s → AreBytes (encode_char c ++ s)
byte_of c s h a = elim (Bool-cases (ltb c 0x80)) [
  | inl e ↦ rw e (ground arith, a)
  | inr e ↦ elim (Bool-cases (ltb c 0x800)) [
    | inl f ↦ rw (e, f) (ground arith, (ground arith, a))
    | inr f ↦ elim (Bool-cases (ltb c 0x10000)) [
      | inl g ↦ rw (e, f, g) (ground arith, (ground arith, (ground arith, a)))
      | inr g ↦ rw (e, f, g) (ground arith, (ground arith, (ground arith, (ground arith, a))))
    ]
  ]
]

text_of-AreBytes : (cs : List ℕ) → AreChars cs → AreBytes (text_of cs)
text_of-AreBytes [] h = tt
text_of-AreBytes (c ∷ cs) (h, hs) = byte_of c (text_of cs) h (text_of-AreBytes cs hs)

-- A path of any characters, written as a URI with every byte of its UTF-8 but the unreserved ones and the slash
-- escaped, is the path that uri_to_path reads, without a panic.
pub uri_to_path-path_to_uri :
    (cs : List ℕ) → AreChars cs → uri_to_path (path_to_uri (text_of cs)) ≡ some (text_of cs)
unfolding uri_to_path strip_prefix
uri_to_path-path_to_uri cs h =
    ap decoded (decode-encode (text_of cs) (text_of-AreBytes cs h))
    ∙ ap some (from_utf8_lossy-text_of cs h)
