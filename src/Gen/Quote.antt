-- ===== src/Gen/Quote.antt =====
-- src/gen.rs: the literals of generated Python, `py_quote`, `quote_tuple` and `mods_lit`. A text is the list of its
-- characters, by their code points.
use fly_lang.Prelude.{
  ℕ, ◌+◌, ◌-◌, ◌/◌, ◌%◌, ◌^◌, Bool, not, ◌&&◌, ltb, leb, within, ◌||◌, ◌==◌, if◌then◌else◌, utf8,
  List, [], ◌∷◌, ◌++◌, map,
}

abbrev pub Chars : Type 0
Chars = List ℕ

-- A digit of `{:x}`.
abbrev pub hex_digit : ℕ → ℕ
hex_digit d = if ltb d 10 then b'0' + d else b'a' + (d - 10)

-- `{:04x}`
abbrev pub hex4 : ℕ → Chars
hex4 c =
    hex_digit (c / 16 ^ 3 % 16)
    ∷ hex_digit (c / 16 ^ 2 % 16)
    ∷ hex_digit (c / 16 % 16)
    ∷ hex_digit (c % 16)
    ∷ []

-- `{:08x}`
abbrev pub hex8 : ℕ → Chars
hex8 c = hex4 (c / 16 ^ 4) ++ hex4 c

-- `char::is_control`
abbrev pub is_control : ℕ → Bool
is_control c = ltb c 0x20 || within 0x7F 0x9F c

-- The characters that are written as they are.
abbrev pub is_shown : ℕ → Bool
is_shown c =
    leb 0x20 c
    && (not (is_control c) && (not (c == 0x7F) && (not (c == 0x2028) && not (c == 0x2029))))

unfoldable pub quote_char : ℕ → Chars
quote_char c =
    if c == b'"'
    then b'\\' ∷ b'"' ∷ []
    else if c == b'\\'
    then b'\\' ∷ b'\\' ∷ []
    else if c == 7
    then b'\\' ∷ b'a' ∷ []
    else if c == 8
    then b'\\' ∷ b'b' ∷ []
    else if c == 12
    then b'\\' ∷ b'f' ∷ []
    else if c == b'\n'
    then b'\\' ∷ b'n' ∷ []
    else if c == b'\r'
    then b'\\' ∷ b'r' ∷ []
    else if c == b'\t'
    then b'\\' ∷ b't' ∷ []
    else if c == 11
    then b'\\' ∷ b'v' ∷ []
    else if is_shown c
    then c ∷ []
    else if ltb c 0x10000
    then b'\\' ∷ b'u' ∷ hex4 c
    else b'\\' ∷ b'U' ∷ hex8 c

unfoldable pub quote_chars : Chars → Chars
quote_chars [] = []
quote_chars (c ∷ cs) = quote_char c ++ quote_chars cs

unfoldable pub py_quote : Chars → Chars
py_quote s = b'"' ∷ (quote_chars s ++ b'"' ∷ [])

-- `q.join(joiner)`
unfoldable pub join_on : Chars → List Chars → Chars
join_on joiner [] = []
join_on joiner (s ∷ []) = s
join_on joiner (s ∷ t ∷ ss) = s ++ (joiner ++ join_on joiner (t ∷ ss))

abbrev pub with_comma : List Chars → Chars → Chars
with_comma (s ∷ []) joined = joined ++ b',' ∷ []
with_comma _ joined = joined

unfoldable pub quote_tuple : List Chars → Chars → Chars → Chars
quote_tuple ss qmark joiner =
    let q = map (λ (s : Chars). qmark ++ (s ++ qmark)) ss in with_comma q (join_on joiner q)

unfoldable pub mods_lit : List Chars → Chars
mods_lit mods =
    b'('
    ∷ (quote_tuple (map (λ (m : Chars). b'\'' ∷ (m ++ b'\'' ∷ [])) mods) [] (utf8 ", ")
        ++ b')' ∷ [])
