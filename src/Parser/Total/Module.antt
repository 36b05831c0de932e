-- ===== src/Parser/Total/Module.antt =====
-- src/parser.rs: `parse` returns for every source.
use fly_lang.Ast.{Stmts}
use fly_lang.Lexer.Invariant.{IsSound}
use fly_lang.Lexer.State
use fly_lang.Parser.Acts.{
  still, strict, zero-Acts, pure-Acts, Runs, To-refl, To-trans, To-still, bind-Runs,
}
use fly_lang.Parser.Module.{level, at_start, new, statements, parse_module, parse_state}
use fly_lang.Parser.Monad.{Parser, pure, go_on, is_token, size, has_error}
use fly_lang.Parser.Rules.{bind_still, at_here}
use fly_lang.Parser.Loops.{until-Acts}
use fly_lang.Parser.Specs.{F64}
use fly_lang.Parser.Tokens.{this-Acts, choose-Runs, next_on-Runs}
use fly_lang.Parser.Total.{Good}
use fly_lang.Parser.Total.Blocks.{stmt_turn-Acts, suite-Acts}
use fly_lang.Parser.Total.Operators.{
  parse_test-Acts, parse_test_list-Acts, parse_expr_list-Acts, parse_or_test-Acts,
  parse_not_test-Acts, parse_factor-Acts,
}
use fly_lang.Prelude.{ℕ, zero, suc, Bytes, none, some, ap, ◌∙◌, refl, ◌≢◌, arith}
use fly_lang.Token.{TokenType, discriminant, pos}

-- The calls, `n` deep, return from every state below `n`.
pub level-Good : (f : F64) (n : ℕ) → Good (level f n) n
unfolding level
level-Good f zero = record {
  test = zero-Acts;
  test_list = zero-Acts;
  expr_list = zero-Acts;
  or_test = zero-Acts;
  not_test = zero-Acts;
  factor = zero-Acts;
  suite = zero-Acts;
}
level-Good f (suc n) =
    let good = level-Good f n in
    record {
      test = parse_test-Acts good;
      test_list = parse_test_list-Acts good;
      expr_list = parse_expr_list-Acts good;
      or_test = parse_or_test-Acts good;
      not_test = parse_not_test-Acts good;
      factor = parse_factor-Acts good;
      suite = suite-Acts f good;
    }

pub statements-Runs : (f : F64) (p : Parser) → IsSound p.lex → Runs (λ _. still) p (statements f p)
unfolding statements
statements-Runs f p s =
    (until-Acts Stmts.done (is_token TokenType.eof) (stmt_turn-Acts f (level-Good f (size p)))).runs
      p (s, omega arith)

pub not_illegal : TokenType.illegal ≢ TokenType.eof
unfolding discriminant
not_illegal e = let n = ap discriminant e in omega (arith, n)

new-Runs : (src : Bytes) → Runs (λ _. strict) (at_start src) (new src)
unfolding new
new-Runs src =
    next_on-Runs none (at_start src) refl (unfold State.new in record { stack = refl; queue = tt })
      not_illegal

pub parse_module-Runs :
    (f : F64) (p : Parser) → IsSound p.lex → Runs (λ _. still) p (parse_module f p)
unfolding parse_module
parse_module-Runs f p s =
    choose-Runs (λ _. still) (has_error p.lex.err) (pure none) _ p (λ _. (none, p, refl, To-refl s))
      (λ _.
        bind-Runs (statements f) _ still (λ _. still) p (statements-Runs f p s)
          (λ ss p' to.
            (bind_still this-Acts (λ t. pure-Acts (some (record { pos = pos t; stmts = ss })))).runs
              p' (to.sound, at_here)))

-- The state that `parse` leaves is reached from the start.
pub parse_state-Runs :
    (f : F64) (src : Bytes) → Runs (λ _. still) (at_start src) (parse_state f src)
unfolding parse_state
parse_state-Runs f src =
    let (u, p, e, to) = new-Runs src in
    let (m, p', e', to') = parse_module-Runs f p to.sound in
    (m, p', ap (go_on (λ _. parse_module f)) e ∙ e', To-still (To-trans to to'))
