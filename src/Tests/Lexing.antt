-- ===== src/Tests/Lexing.antt =====
-- Runs of the lexer.
use fly_lang.Lexer.Cursor.{
  start, advance_on, advance, advance_by, byte_at, peek, is_empty, at_end, slice, advance_while,
  skip_line, is_ident_start, is_ident_part,
}
use fly_lang.Lexer.Layout.{
  top, touch_last, pop_pending, close_all, close_above, settle, bad_level, check_level, indent,
  dedent_to, indent_to, front_or_eof, close_blocks, bad_tab, byte_at_start, after_spaces, line_turn,
  line_start,
}
use fly_lang.Lexer.Loop.{loop}
use fly_lang.Lexer.Next.{
  token_here, lex_token, end_of_input, end_of_line, byte_in_line, in_line, next_turn, next_on,
  next_after, next, lex_loop, lex_all,
}
use fly_lang.Lexer.Numbers.{
  is_digit, is_digit_part, is_hex_part, has_radix, digits, exponent, fraction, decimal, number_at,
  finish_number, scan_number,
}
use fly_lang.Lexer.Operators.{op_at, bracket, op_here, scan_op}
use fly_lang.Lexer.State.{
  index, index_on, new, errorf, push_pending, inc32, dec32, is_pos32, is_neg32, Lexer,
}
use fly_lang.Lexer.Words.{
  scan_ident, lower, prefix_index, is_seen, prefix_loop, is_string_prefix, string_loop, past_quotes,
  is_triple, finish_string, scan_string, scan_string_prefix,
}
use fly_lang.Token.{
  select, keyword, keyword_name, symbol_name, ty_eq, discriminant, TokenType, Token,
}
use fly_lang.Lexer.Invariant.Whole.{IsStream}
use fly_lang.Lexer.Invariant.{ups_in, downs_in}
use fly_lang.Lexer.Stream.{lex_all_total, lex_all_balanced, lex_all-ArePlaced, ArePlaced}
use fly_lang.Prelude.{
  Bytes, utf8, bytes_eq, List, [], ◌∷◌, map, Option, none, some, ◌≡◌, false, refl, arith,
}

abbrev tokens_of : Option (List Token × Lexer) → List Token
tokens_of none = []
tokens_of (some (ts, l)) = ts

abbrev lexer_of : Option (List Token × Lexer) → Lexer
lexer_of none = new []
lexer_of (some (ts, l)) = l

-- A block with a call over two lines in it.
abbrev block : Bytes
block = utf8 "if x:\n  f(1,\n 2)\n"

-- A line of the block that holds nothing but a carriage return.
abbrev carriage_return : Bytes
carriage_return = utf8 "if x:\n  y\n\r\n  z\n"

abbrev types : Bytes → List TokenType
types src = map (λ (t : Token). t.ty) (tokens_of (lex_all src))

block-types :
    types block
    ≡ TokenType.if_ ∷ TokenType.ident ∷ TokenType.colon ∷ TokenType.newline ∷ TokenType.indent
      ∷ TokenType.ident ∷ TokenType.lparen ∷ TokenType.int ∷ TokenType.comma ∷ TokenType.int
      ∷ TokenType.rparen ∷ TokenType.newline ∷ TokenType.dedent ∷ TokenType.eof ∷ []
unfolding start advance_on advance advance_by byte_at peek is_empty at_end slice advance_while
    skip_line is_ident_start is_ident_part top touch_last pop_pending close_all close_above settle
    bad_level check_level indent dedent_to indent_to front_or_eof close_blocks bad_tab byte_at_start
    after_spaces line_turn line_start loop token_here lex_token end_of_input end_of_line
    byte_in_line in_line next_turn next_on next_after next lex_loop lex_all is_digit is_digit_part
    is_hex_part has_radix digits exponent fraction decimal number_at finish_number scan_number op_at
    bracket op_here index index_on scan_op new errorf push_pending inc32 dec32 is_pos32 is_neg32
    scan_ident lower prefix_index is_seen prefix_loop is_string_prefix string_loop past_quotes
    is_triple finish_string scan_string scan_string_prefix select keyword keyword_name symbol_name
    ty_eq discriminant bytes_eq
block-types = refl

-- The block is closed and opened again around the line that looks blank.
carriage_return-types :
    types carriage_return
    ≡ TokenType.if_ ∷ TokenType.ident ∷ TokenType.colon ∷ TokenType.newline ∷ TokenType.indent
      ∷ TokenType.ident ∷ TokenType.newline ∷ TokenType.dedent ∷ TokenType.indent ∷ TokenType.ident
      ∷ TokenType.newline ∷ TokenType.dedent ∷ TokenType.eof ∷ []
unfolding start advance_on advance advance_by byte_at peek is_empty at_end slice advance_while
    skip_line is_ident_start is_ident_part top touch_last pop_pending close_all close_above settle
    bad_level check_level indent dedent_to indent_to front_or_eof close_blocks bad_tab byte_at_start
    after_spaces line_turn line_start loop token_here lex_token end_of_input end_of_line
    byte_in_line in_line next_turn next_on next_after next lex_loop lex_all is_digit is_digit_part
    is_hex_part has_radix digits exponent fraction decimal number_at finish_number scan_number op_at
    bracket op_here index index_on scan_op new errorf push_pending inc32 dec32 is_pos32 is_neg32
    scan_ident lower prefix_index is_seen prefix_loop is_string_prefix string_loop past_quotes
    is_triple finish_string scan_string scan_string_prefix select keyword keyword_name symbol_name
    ty_eq discriminant bytes_eq
carriage_return-types = refl

lex_all_total_example :
    (r : List Token × Lexer) × (lex_all block ≡ some r) × IsStream r.0 × (r.1.cur.panicked ≡ false)
lex_all_total_example = lex_all_total block

block_err : (lexer_of (lex_all block)).err ≡ none
unfolding start advance_on advance advance_by byte_at peek is_empty at_end slice advance_while
    skip_line is_ident_start is_ident_part top touch_last pop_pending close_all close_above settle
    bad_level check_level indent dedent_to indent_to front_or_eof close_blocks bad_tab byte_at_start
    after_spaces line_turn line_start loop token_here lex_token end_of_input end_of_line
    byte_in_line in_line next_turn next_on next_after next lex_loop lex_all is_digit is_digit_part
    is_hex_part has_radix digits exponent fraction decimal number_at finish_number scan_number op_at
    bracket op_here index index_on scan_op new errorf push_pending inc32 dec32 is_pos32 is_neg32
    scan_ident lower prefix_index is_seen prefix_loop is_string_prefix string_loop past_quotes
    is_triple finish_string scan_string scan_string_prefix select keyword keyword_name symbol_name
    ty_eq discriminant bytes_eq
block_err = refl

returned :
    (o : Option (List Token × Lexer)) (r : List Token × Lexer)
    → o ≡ some r
    → o ≡ some (tokens_of o, lexer_of o)
returned none r e = absurd (ground arith)
returned (some r') r e = refl

block_returns : lex_all block ≡ some (tokens_of (lex_all block), lexer_of (lex_all block))
block_returns = returned (lex_all block) (lex_all_total block).0 (lex_all_total block).1

lex_all_balanced_example :
    (ups_in (tokens_of (lex_all block)) ≡ downs_in (tokens_of (lex_all block)))
    × ((lexer_of (lex_all block)).cur.rest ≡ [])
lex_all_balanced_example =
    lex_all_balanced block (tokens_of (lex_all block)) (lexer_of (lex_all block)) block_returns
      block_err

lex_all-ArePlaced_example : ArePlaced block 0 (tokens_of (lex_all block))
lex_all-ArePlaced_example =
    lex_all-ArePlaced block (tokens_of (lex_all block)) (lexer_of (lex_all block)) block_returns
