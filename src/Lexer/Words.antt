-- ===== src/Lexer/Words.antt =====
-- src/lexer/lexer.rs: identifiers and keywords, and string literals with their prefixes.
use fly_lang.Lexer.Cursor.{Cursor, advance, advance_while, peek, slice, position, is_ident_part}
use fly_lang.Lexer.State.{Lexer, token, illegal_at, errorf}
use fly_lang.Prelude.{
  ℕ, ◌+◌, Bool, true, false, ◌&&◌, ◌||◌, ◌==◌, leb, within, if◌then◌else◌, Bytes, utf8, List, [],
  ◌∷◌, ◌++◌, map, Option, none, some,
}
use fly_lang.Token.{TokenType, Token, keyword}

-- The branch of `lex_token` for names.
unfoldable pub scan_ident : Lexer → Token × Lexer
scan_ident l =
    let e = advance_while is_ident_part l.cur.rest l.cur in
    let name = slice l.cur e in
    elim (keyword name) [
      | some tt ↦ (token tt name (position l.cur), record l { cur = e })
      | none ↦ (token TokenType.ident name (position l.cur), record l { cur = e })
    ]

unfoldable pub lower : ℕ → ℕ
lower c = if within b'A' b'Z' c then c + 32 else c

-- The closure `idx` of `is_string_prefix`.
unfoldable pub prefix_index : ℕ → Option ℕ
prefix_index c =
    if c == b'f'
    then some 0
    else if c == b'r'
    then some 1
    else if c == b'b'
    then some 2
    else if c == b'u'
    then some 3
    else none

-- The array `seen`, as the indices that are set.
unfoldable pub is_seen : ℕ → List ℕ → Bool
is_seen j [] = false
is_seen j (i ∷ seen) = i == j || is_seen j seen

-- The loop of `is_string_prefix`; `k` is `i - self.off`.
unfoldable pub prefix_loop : Bytes → ℕ → List ℕ → Bool
unfolding lower prefix_index is_seen
prefix_loop [] k seen = false
prefix_loop (c ∷ cs) k seen = elim (c == b'\'' || c == b'"') [
  | true ↦ true
  | false ↦ elim (leb 2 k) [
    | true ↦ false
    | false ↦ elim (prefix_index (lower c)) [
      | none ↦ false
      | some j ↦ elim (is_seen j seen) [ true ↦ false | false ↦ prefix_loop cs (k + 1) (j ∷ seen) ]
    ]
  ]
]

unfoldable pub is_string_prefix : Cursor → Bool
unfolding prefix_loop
is_string_prefix c = prefix_loop c.rest 0 []

-- Where the loop of `scan_string` stops: at a closing quote, or with none found.
pub data Close : Type 0 where
  closed : Cursor → Close
  unclosed : Cursor → Close

-- The loop of `scan_string` behind the opening quote or quotes; the list is what is left to read.
unfoldable pub string_loop : ℕ → Bool → Bytes → Cursor → Close
string_loop q triple [] c = unclosed c
string_loop q triple (b ∷ []) c =
    if b == b'\\'
    then unclosed (advance c)
    else if b == q
    then if triple then unclosed (advance c) else closed c
    else if b == b'\n'
    then if triple then unclosed (advance c) else unclosed c
    else unclosed (advance c)
string_loop q triple (b ∷ b₁ ∷ bs) c =
    let one = string_loop q triple (b₁ ∷ bs) (advance c) in
    let two = string_loop q triple bs (advance (advance c)) in
    if b == b'\\'
    then two
    else if b == q
    then if triple then if peek c 1 == q && peek c 2 == q then closed c else one else closed c
    else if b == b'\n'
    then if triple then one else unclosed c
    else one

-- The quote or quotes around a literal.
abbrev pub quotes : ℕ → Bool → Bytes
quotes q triple = if triple then q ∷ q ∷ q ∷ [] else q ∷ []

-- Past the quote or quotes.
unfoldable pub past_quotes : Bool → Cursor → Cursor
past_quotes triple c = if triple then advance (advance (advance c)) else advance c

unfoldable pub is_triple : ℕ → Cursor → Bool
is_triple q c = peek c 0 == q && peek c 1 == q

unfoldable pub finish_string : Bytes → ℕ → Bool → Lexer → Cursor → Close → Token × Lexer
finish_string prefix q triple l begin (closed e) = (
  token TokenType.string (prefix ++ (quotes q triple ++ (slice begin e ++ quotes q triple)))
      (position l.cur),
  record l { cur = past_quotes triple e },
)
finish_string prefix q triple l begin (unclosed e) =
    (illegal_at (position l.cur), errorf (position l.cur) (utf8 "字符串未闭合") [] (record l { cur = e }))

unfoldable pub scan_string : Bytes → Lexer → Token × Lexer
scan_string prefix l =
    let q = peek l.cur 0 in
    let opened = advance l.cur in
    let triple = is_triple q opened in
    let begin = if triple then advance (advance opened) else opened in
    finish_string prefix q triple l begin (string_loop q triple begin.rest begin)

unfoldable pub scan_string_prefix : Lexer → Token × Lexer
unfolding lower
scan_string_prefix l =
    let e = advance_while is_ident_part l.cur.rest l.cur in
    scan_string (map lower (slice l.cur e)) (record l { cur = e })
