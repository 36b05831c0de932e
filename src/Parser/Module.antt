-- ===== src/Parser/Module.antt =====
-- src/parser.rs: `new`, `parse_module` and `parse`.
use fly_lang.Ast.{Stmts, Module}
use fly_lang.Diagnostic.{Diagnostic}
use fly_lang.Lexer.State
use fly_lang.Parser.Blocks.{stmt_turn, suite}
use fly_lang.Parser.Monad.{
  Parser, P, pure, ◌>>=◌, go_on, this, choose, is_token, next_on, size, until, has_error,
}
use fly_lang.Parser.Operators.{
  parse_test, parse_test_list, parse_expr_list, parse_or_test, parse_not_test, parse_factor,
}
use fly_lang.Parser.Shapes.{Rec}
use fly_lang.Parser.Specs.{F64}
use fly_lang.Prelude.{ℕ, zero, suc, Bytes, [], Option, none, some}
use fly_lang.Token.{TokenType, pos}

-- A call that fuel does not reach.
abbrev pub unreached : {A : Type 0} → P A
unreached p = none

-- The calls, `n` deep.
unfoldable pub level : F64 → ℕ → Rec
level f zero = record {
  test = unreached;
  test_list = unreached;
  expr_list = unreached;
  or_test = unreached;
  not_test = unreached;
  factor = unreached;
  suite = unreached;
}
level f (suc n) = record {
  test = parse_test (level f n);
  test_list = parse_test_list (level f n);
  expr_list = parse_expr_list (level f n);
  or_test = parse_or_test (level f n);
  not_test = parse_not_test (level f n);
  factor = parse_factor (level f n);
  suite = suite f (level f n);
}

abbrev pub at_start : Bytes → Parser
at_start src = record {
  lex = State.new src;
  tok = record { ty = TokenType.illegal; lit = []; line = 0; col = 0 };
  peeked = none;
  err = none;
}

-- `new` reads the first token.
unfoldable pub new : Bytes → Option (Unit {0} × Parser)
new src = next_on none (at_start src)

unfoldable pub statements : F64 → P Stmts
statements f p = until (is_token TokenType.eof) (stmt_turn f (level f (size p))) Stmts.done p

unfoldable pub parse_module : F64 → P (Option Module)
parse_module f p =
    choose (has_error p.lex.err) (pure none)
      (do ss ← statements f; t ← this; pure (some (record { pos = pos t; stmts = ss }))) p

abbrev pub or_else : Option Diagnostic → Option Diagnostic → Option Diagnostic
or_else none o = o
or_else (some d) o = some d

-- `err`
abbrev pub found_error : Parser → Option Diagnostic
found_error p = or_else p.err p.lex.err

unfoldable pub outcome :
    Option (Option Module × Parser) → Option (Option Module × Option Diagnostic)
outcome none = none
outcome (some (m, p)) = some (m, found_error p)

-- What `parse_module` of a new parser gives, with the state that it leaves.
unfoldable pub parse_state : F64 → Bytes → Option (Option Module × Parser)
parse_state f src = go_on (λ _. parse_module f) (new src)

unfoldable pub parse : F64 → Bytes → Option (Option Module × Option Diagnostic)
parse f src = outcome (parse_state f src)
