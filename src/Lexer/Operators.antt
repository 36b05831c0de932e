-- ===== src/Lexer/Operators.antt =====
-- src/lexer/lexer.rs: `scan_op`. The arms of its `match` are split in two: which operator stands
-- there and how long it is, and what a bracket does to the depth.
use fly_lang.Lexer.Cursor.{advance_by, peek, slice, position}
use fly_lang.Lexer.State.{Lexer, index, token, illegal_at, errorf, inc32, dec32, is_neg32}
use fly_lang.Prelude.{
  ℕ, Bool, ◌&&◌, ◌||◌, ◌==◌, if◌then◌else◌, Bytes, utf8, [], ◌∷◌, Option, none, some, encode_char,
}
use fly_lang.Token.{TokenType, Token}

-- `c`, `p₁` and `p₂` are the byte here and the two behind it; the number is the operator's length.
unfoldable pub op_at : ℕ → ℕ → ℕ → Option (TokenType × ℕ)
op_at c p₁ p₂ =
    if c == b'+'
    then (if p₁ == b'=' then some (TokenType.plus_assign, 2) else some (TokenType.plus, 1))
    else if c == b'-'
    then (if p₁ == b'='
        then some (TokenType.minus_assign, 2)
        else if p₁ == b'>'
        then some (TokenType.arrow, 2)
        else some (TokenType.minus, 1))
    else if c == b'*'
    then (if p₁ == b'*' && p₂ == b'='
        then some (TokenType.double_star_assign, 3)
        else if p₁ == b'*'
        then some (TokenType.double_star, 2)
        else if p₁ == b'='
        then some (TokenType.star_assign, 2)
        else some (TokenType.star, 1))
    else if c == b'/'
    then (if p₁ == b'/' && p₂ == b'='
        then some (TokenType.floor_div_assign, 3)
        else if p₁ == b'/'
        then some (TokenType.floor_div, 2)
        else if p₁ == b'='
        then some (TokenType.slash_assign, 2)
        else some (TokenType.slash, 1))
    else if c == b'%'
    then (if p₁ == b'=' then some (TokenType.percent_assign, 2) else some (TokenType.percent, 1))
    else if c == b'<'
    then (if p₁ == b'<' && p₂ == b'='
        then some (TokenType.shl_assign, 3)
        else if p₁ == b'<'
        then some (TokenType.shl, 2)
        else if p₁ == b'='
        then some (TokenType.le, 2)
        else some (TokenType.lt, 1))
    else if c == b'>'
    then (if p₁ == b'>' && p₂ == b'='
        then some (TokenType.shr_assign, 3)
        else if p₁ == b'>'
        then some (TokenType.shr, 2)
        else if p₁ == b'='
        then some (TokenType.ge, 2)
        else some (TokenType.gt, 1))
    else if c == b'!'
    then (if p₁ == b'=' then some (TokenType.ne, 2) else none)
    else if c == b'&'
    then (if p₁ == b'=' then some (TokenType.amp_assign, 2) else some (TokenType.amp, 1))
    else if c == b'|'
    then (if p₁ == b'=' then some (TokenType.pipe_assign, 2) else some (TokenType.pipe, 1))
    else if c == b'^'
    then (if p₁ == b'=' then some (TokenType.caret_assign, 2) else some (TokenType.caret, 1))
    else if c == b'~'
    then some (TokenType.tilde, 1)
    else if c == b'='
    then (if p₁ == b'=' then some (TokenType.eq_eq, 2) else some (TokenType.assign, 1))
    else if c == b':'
    then some (TokenType.colon, 1)
    else if c == b','
    then some (TokenType.comma, 1)
    else if c == b'.'
    then some (TokenType.dot, 1)
    else if c == b';'
    then some (TokenType.semicolon, 1)
    else if c == b'@'
    then some (TokenType.at, 1)
    else if c == b'('
    then some (TokenType.lparen, 1)
    else if c == b')'
    then some (TokenType.rparen, 1)
    else if c == b'['
    then some (TokenType.lbracket, 1)
    else if c == b']'
    then some (TokenType.rbracket, 1)
    else if c == b'{'
    then some (TokenType.lbrace, 1)
    else if c == b'}'
    then some (TokenType.rbrace, 1)
    else none

abbrev is_open_byte : ℕ → Bool
is_open_byte c = c == b'(' || c == b'[' || c == b'{'

abbrev is_close_byte : ℕ → Bool
is_close_byte c = c == b')' || c == b']' || c == b'}'

abbrev extra_close : ℕ → Bytes
extra_close c =
    if c == b')'
    then utf8 "多余的右括号 ')'"
    else if c == b']'
    then utf8 "多余的右括号 ']'"
    else utf8 "多余的右括号 '}'"

-- The change of `depth` at a bracket, and the error at a closing one too many.
unfoldable pub bracket : ℕ → Lexer → Lexer
bracket c l =
    if is_open_byte c
    then record l { depth = inc32 l.depth }
    else if is_close_byte c
    then (let l' = record l { depth = dec32 l.depth } in
        if is_neg32 l'.depth then errorf (position l.cur) (extra_close c) [] l' else l')
    else l

-- Behind `let c = self.src[self.off]`.
unfoldable pub op_here : Lexer → Token × Lexer
op_here l =
    let c = peek l.cur 0 in
    elim (op_at c (peek l.cur 1) (peek l.cur 2)) [
      | some (ty, n) ↦
          let e = advance_by n l.cur in
          (token ty (slice l.cur e) (position l.cur), record (bracket c l) { cur = e })
      | none ↦ (
        illegal_at (position l.cur),
        errorf (position l.cur) (utf8 "意外的字符 %q") (encode_char c ∷ []) l,
      )
    ]

unfoldable pub scan_op : Lexer → Token × Lexer
unfolding op_here
scan_op l = op_here (index l)
