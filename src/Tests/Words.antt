-- ===== src/Tests/Words.antt =====
-- Keywords, operators and messages at concrete inputs.
use fly_lang.Diagnostic.Format.{format_msg, weave, with_verb, args_of, format_msg-weave}
use fly_lang.Lexer.Cursor.{peek, byte_at, start, advance_by}
use fly_lang.Lexer.State.{index, index_on, Lexer, new}
use fly_lang.Lexer.Munch.{scan_op-symbol_name, op_at-longest, StandsAt}
use fly_lang.Lexer.Operators.{op_at, op_here, scan_op}
use fly_lang.Prelude.{
  ◌≤◌, Bytes, utf8, List, [], ◌∷◌, map, length, some, ◌≡◌, ◌≢◌, ◌↔◌, refl, arith,
}
use fly_lang.Token.{TokenType, keyword, keyword_name, symbol_name}
use fly_lang.Token.Keywords.{keyword_iff}

keyword_iff_example :
    (keyword (utf8 "elif") ≡ some TokenType.elif)
    ↔ (keyword_name TokenType.elif ≡ some (utf8 "elif"))
keyword_iff_example = keyword_iff (utf8 "elif") TokenType.elif

shifts : op_at b'<' b'<' b'=' ≡ some (TokenType.shl_assign, 3)
unfolding op_at
shifts = refl

stands : StandsAt TokenType.shl b'<' b'<' b'='
unfolding symbol_name
stands = refl

other : TokenType.shl ≢ TokenType.ellipsis
other = ground arith

op_at-longest_example : length (symbol_name TokenType.shl) ≤ 3
op_at-longest_example =
    op_at-longest TokenType.shl b'<' b'<' b'=' TokenType.shl_assign 3 shifts other stands

abbrev pieces : List (Bytes × Bytes)
pieces = (utf8 "a ", utf8 "100%s") ∷ (utf8 " b ", utf8 "%q") ∷ []

format_msg-weave_example :
    format_msg (weave (map with_verb pieces) (utf8 "c")) (args_of pieces) ≡ weave pieces (utf8 "c")
format_msg-weave_example = format_msg-weave pieces (utf8 "c") (omega arith)

abbrev power : Lexer
power = new (utf8 "**=2")

power_legal : (scan_op power).0.ty ≢ TokenType.illegal
unfolding scan_op op_here index index_on op_at peek byte_at new start
power_legal = ground arith

scan_op-symbol_name_example :
    ((scan_op power).0.lit ≡ symbol_name (scan_op power).0.ty)
    × ((scan_op power).1.cur ≡ advance_by (length (symbol_name (scan_op power).0.ty)) power.cur)
scan_op-symbol_name_example = scan_op-symbol_name power power_legal
