-- ===== src/Lexer/Next.antt =====
-- src/lexer/lexer.rs: `lex_token` and `next`; and `lex_all` of src/fmt.rs, which calls `next` up to the
-- end of the file.
use fly_lang.Diagnostic.{Diagnostic}
use fly_lang.Lexer.Cursor.{advance, peek, at_end, skip_line, position, is_ident_start}
use fly_lang.Lexer.Layout.{line_start, close_blocks, pop_pending}
use fly_lang.Lexer.Loop.{Turn, again, return, stuck, loop}
use fly_lang.Lexer.Numbers.{is_digit, scan_number}
use fly_lang.Lexer.Operators.{scan_op}
use fly_lang.Lexer.State.{Lexer, index, new, token, bare, errorf, is_pos32}
use fly_lang.Lexer.Words.{scan_ident, is_string_prefix, scan_string, scan_string_prefix}
use fly_lang.Prelude.{
  ℕ, zero, suc, ◌*◌, ◌+◌, Bool, true, false, not, ◌&&◌, ◌||◌, ◌==◌, if◌then◌else◌, Bytes, length,
  utf8, List, [], ◌∷◌, Option, none, some,
}
use fly_lang.Token.{TokenType, Token, ty_eq}

abbrev pub is_prefix_letter : ℕ → Bool
is_prefix_letter c =
    c == b'f'
    || c == b'F'
    || c == b'r'
    || c == b'R'
    || c == b'b'
    || c == b'B'
    || c == b'u'
    || c == b'U'

abbrev pub scan_ellipsis : Lexer → Token × Lexer
scan_ellipsis l = (
  token TokenType.ellipsis (utf8 "...") (position l.cur),
  record l { cur = advance (advance (advance l.cur)) },
)

-- Behind `let c = self.src[self.off]`.
unfoldable pub token_here : Lexer → Token × Lexer
token_here l =
    let c = peek l.cur 0 in
    if is_prefix_letter c && is_string_prefix l.cur
    then scan_string_prefix l
    else if is_ident_start c
    then scan_ident l
    else if is_digit c
    then scan_number l
    else if c == b'\'' || c == b'"'
    then scan_string [] l
    else if c == b'.' && peek l.cur 1 == b'.' && peek l.cur 2 == b'.'
    then scan_ellipsis l
    else if c == b'.' && is_digit (peek l.cur 1)
    then scan_number l
    else scan_op l

unfoldable pub lex_token : Lexer → Token × Lexer
unfolding token_here
lex_token l = token_here (index l)

abbrev pub Result : Type 0
Result = Token × Lexer

-- The end of the input, in the middle of a line.
unfoldable pub end_of_input : Lexer → Result
end_of_input l =
    if l.line_tok
    then (bare TokenType.newline l, record l { line_tok = false })
    else close_blocks (if is_pos32 l.depth then errorf (position l.cur) (utf8 "未闭合的括号") [] l else l)

-- A line break.
unfoldable pub end_of_line : Lexer → Turn Lexer Result
end_of_line l =
    if is_pos32 l.depth
    then again (record l { cur = advance l.cur })
    else (let l' = record l { cur = advance l.cur; at_line_start = true } in
        if l.line_tok
        then return (bare TokenType.newline l, record l' { line_tok = false })
        else again l')

abbrev pub mark_token : Result → Result
mark_token (t, l) =
    if not (ty_eq t.ty TokenType.illegal) then (t, record l { line_tok = true }) else (t, l)

-- Behind the read of the byte, `let c = self.src[self.off]`.
unfoldable pub byte_in_line : Lexer → Turn Lexer Result
byte_in_line l =
    let c = peek l.cur 0 in
    if c == b' ' || c == b'\r' || c == b'\t'
    then again (record l { cur = advance l.cur })
    else if c == b'\n'
    then end_of_line l
    else if c == b'#'
    then again (record l { cur = skip_line l.cur })
    else if c == b'\\' && peek l.cur 1 == b'\n'
    then again (record l { cur = advance (advance l.cur) })
    else return (mark_token (lex_token l))

-- One turn of the loop, behind the call of `line_start`.
unfoldable pub in_line : Lexer → Turn Lexer Result
in_line l = if at_end l.cur then return (end_of_input l) else byte_in_line (index l)

abbrev pub after_start : Option (Option Token × Lexer) → Turn Lexer Result
after_start none = stuck
after_start (some (none, l)) = in_line l
after_start (some (some t, l)) = return (t, l)

unfoldable pub next_turn : Lexer → Turn Lexer Result
next_turn l = if l.at_line_start then after_start (line_start l) else in_line l

unfoldable pub next_on : Option Token × Lexer → Option Result
next_on (some t, l) = some (t, l)
next_on (none, l) = loop next_turn (suc (length l.cur.rest)) l

unfoldable pub next_after : Option Diagnostic → Lexer → Option Result
unfolding next_on
next_after (some e) l = some (bare TokenType.eof l, l)
next_after none l = next_on (pop_pending l.pending l)

unfoldable pub next : Lexer → Option Result
unfolding next_after
next l = next_after l.err l

-- The loop of `lex_all`; `none` stands for fuel that ran out.
unfoldable pub lex_loop : ℕ → Lexer → Option (List Token × Lexer)
lex_loop zero l = none
lex_loop (suc fuel) l = elim (next l) [
  | none ↦ none
  | some (t, l') ↦ elim (ty_eq t.ty TokenType.eof) [
    | true ↦ some (t ∷ [], l')
    | false ↦ elim (lex_loop fuel l') [ none ↦ none | some (ts, l'') ↦ some (t ∷ ts, l'') ]
  ]
]

-- A bound on the calls of `next` that a source of that many bytes takes.
abbrev pub enough : ℕ → ℕ
enough n = 3 * n + 4

unfoldable pub lex_all : Bytes → Option (List Token × Lexer)
lex_all src = lex_loop (enough (length src)) (new src)
