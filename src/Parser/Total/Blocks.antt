-- ===== src/Parser/Total/Blocks.antt =====
-- src/parser.rs: statements with bodies, and `statement` and `suite`, return.
use fly_lang.Ast.{Exprs, Stmt, Stmts, Elifs, Handlers}
use fly_lang.Parser.Acts.{still, onward, lower-Acts, Acts, Turns}
use fly_lang.Parser.Blocks.{
  func_def, only_stmt, class_def, give_up, seal_stmt, trace_body, trace_stmt, cage_body, cage_stmt,
  suite_behind, elif_turn, if_stmt, for_stmt, while_stmt, except_head, except_turn, try_stmt,
  decorator, decorator_turn, decorated_stmt, refuse_keyword, line_stmt, block_stmt, statement,
  stmt_turn, block, inline_turn, suite,
}
use fly_lang.Parser.Heads.{Options, given, refused, TraceArgs, Limits}
use fly_lang.Parser.Monad.{P, is_token, Go, more, stop, after_turn}
use fly_lang.Parser.Rules.{acts_rules, bind_next}
use fly_lang.Parser.Shapes.{Rec, one_of}
use fly_lang.Parser.Specs.{F64}
use fly_lang.Parser.Tokens.{IsReal}
use fly_lang.Parser.Total.{Good}
use fly_lang.Parser.Total.Heads.{
  test_behind-Acts, params-Acts, bases-Acts, only_modules-Acts, trace_args-Acts, cage_limits-Acts,
}
use fly_lang.Parser.Total.Lines.{
  return_stmt-Acts, raise_stmt-Acts, del_stmt-Acts, lock_stmt-Acts, taint_decl_stmt-Acts,
  guard_stmt-Acts, import_stmt-Acts, from_import_stmt-Acts, as_name-Acts,
}
use fly_lang.Parser.Total.Operators.{parse_test-below, parse_test_list-below, parse_expr_list-below}
use fly_lang.Parser.Total.Simple.{skip_semicolons-Acts, stmt_end-Acts, ended-Acts, simple_stmt-Acts}
use fly_lang.Prelude.{ℕ, suc, Bool, Bytes, Option}
use fly_lang.Token.{TokenType, Token, ty_eq, discriminant}

give_up-Acts : {n : ℕ} (format : Bytes) → Acts onward n (give_up format)
unfolding give_up
give_up-Acts format = search (acts_rules, bind_next) depth 40 fits 4000

refuse_keyword-Acts : {n : ℕ} → Acts onward n refuse_keyword
unfolding refuse_keyword
refuse_keyword-Acts = search (acts_rules, bind_next) depth 40 fits 4000

after_turn-Acts :
    {S : Type 0} {n : ℕ} {again : S → P S} (g : Go S)
    → ((s : S) → Acts still n (again s))
    → Acts still n (after_turn again g)
after_turn-Acts (more s) a = a s
after_turn-Acts (stop s) a = search acts_rules

module _ {r : Rec} {n : ℕ} where
  ruleset body_rules = (
    acts_rules, parse_test-below, parse_test_list-below, parse_expr_list-below, test_behind-Acts,
    params-Acts, bases-Acts, give_up-Acts, as_name-Acts, stmt_end-Acts, after_turn-Acts,
  )

  func_def-Acts : Good r n → (t : Token) (ds : Exprs) → Acts still n (func_def r t ds)
  unfolding func_def is_token one_of ty_eq discriminant
  func_def-Acts g t ds = search body_rules depth 40 fits 4000

  only_stmt-Acts : Good r n → (t : Token) → Acts still n (only_stmt r t)
  unfolding only_stmt is_token one_of ty_eq discriminant
  only_stmt-Acts g t = search (body_rules, only_modules-Acts) depth 40 fits 4000

  class_def-Acts :
      Good r n → (t : Token) (ds : Exprs) (seal : Bool) → Acts still n (class_def r t ds seal)
  unfolding class_def is_token one_of ty_eq discriminant
  class_def-Acts g t ds seal = search body_rules depth 40 fits 4000

  seal_stmt-Acts : Good r n → Acts still n (seal_stmt r)
  unfolding seal_stmt is_token one_of ty_eq discriminant
  seal_stmt-Acts g = search (body_rules, class_def-Acts) depth 40 fits 4000

  trace_body-Acts : Good r n → (t : Token) (o : Options TraceArgs) → Acts still n (trace_body r t o)
  unfolding trace_body is_token one_of ty_eq discriminant
  trace_body-Acts g t refused = search body_rules depth 40 fits 4000
  trace_body-Acts g t (given s) = search body_rules depth 40 fits 4000

  trace_stmt-Acts : Good r n → (t : Token) → Acts still n (trace_stmt r t)
  unfolding trace_stmt is_token one_of ty_eq discriminant
  trace_stmt-Acts g t = search (body_rules, trace_args-Acts, trace_body-Acts) depth 40 fits 4000

  cage_body-Acts : Good r n → (t : Token) (o : Options Limits) → Acts still n (cage_body r t o)
  unfolding cage_body is_token one_of ty_eq discriminant
  cage_body-Acts g t refused = search body_rules depth 40 fits 4000
  cage_body-Acts g t (given s) = search body_rules depth 40 fits 4000

  cage_stmt-Acts : (f : F64) → Good r n → (t : Token) → Acts still n (cage_stmt f r t)
  unfolding cage_stmt is_token one_of ty_eq discriminant
  cage_stmt-Acts f g t = search (body_rules, cage_limits-Acts, cage_body-Acts) depth 40 fits 4000

  suite_behind-Acts :
      (ty : TokenType) → IsReal (is_token ty) → Good r n → Acts still n (suite_behind ty r)
  unfolding suite_behind
  suite_behind-Acts ty e g = search body_rules depth 40 fits 4000

  elif_turn-Turns : Good r n → (es : Elifs) → Turns n (elif_turn r es)
  unfolding elif_turn is_token one_of ty_eq discriminant
  elif_turn-Turns g es = search body_rules depth 40 fits 4000

  if_stmt-Acts : Good r n → (t : Token) → Acts still n (if_stmt r t)
  unfolding if_stmt is_token one_of ty_eq discriminant
  if_stmt-Acts g t = search (body_rules, elif_turn-Turns, suite_behind-Acts) depth 40 fits 4000

  for_stmt-Acts : Good r n → (t : Token) → Acts still n (for_stmt r t)
  unfolding for_stmt is_token one_of ty_eq discriminant
  for_stmt-Acts g t = search (body_rules, suite_behind-Acts) depth 40 fits 4000

  while_stmt-Acts : Good r n → (t : Token) → Acts still n (while_stmt r t)
  unfolding while_stmt is_token one_of ty_eq discriminant
  while_stmt-Acts g t = search (body_rules, suite_behind-Acts) depth 40 fits 4000

  except_head-Acts : Good r n → Acts still n (except_head r)
  unfolding except_head is_token one_of ty_eq discriminant
  except_head-Acts g = search body_rules depth 40 fits 4000

  except_turn-Turns : Good r n → (hs : Handlers) → Turns n (except_turn r hs)
  unfolding except_turn is_token one_of ty_eq discriminant
  except_turn-Turns g hs = search (body_rules, except_head-Acts) depth 40 fits 4000

  try_stmt-Acts : Good r n → (t : Token) → Acts still n (try_stmt r t)
  unfolding try_stmt is_token one_of ty_eq discriminant
  try_stmt-Acts g t = search (body_rules, except_turn-Turns, suite_behind-Acts) depth 40 fits 4000

  decorator-Acts : Good r n → (ds : Exprs) → Acts still n (decorator r ds)
  unfolding decorator is_token one_of ty_eq discriminant
  decorator-Acts g ds = search body_rules depth 40 fits 4000

  decorator_turn-Turns : Good r n → (ds : Exprs) → Turns n (decorator_turn r ds)
  unfolding decorator_turn is_token one_of ty_eq discriminant
  decorator_turn-Turns g ds = search (body_rules, decorator-Acts) depth 40 fits 4000

  decorated_stmt-Acts : Good r n → Acts still n (decorated_stmt r)
  unfolding decorated_stmt is_token one_of ty_eq discriminant
  decorated_stmt-Acts g =
      search (body_rules, decorator-Acts, decorator_turn-Turns, func_def-Acts, class_def-Acts) depth
        40 fits 4000

  line_stmt-Acts :
      {m : P (Option Stmt)} → Good r n → Acts onward (suc n) m → Acts onward (suc n) (line_stmt r m)
  unfolding line_stmt is_token one_of ty_eq discriminant
  line_stmt-Acts g a =
      search
        (
          acts_rules, ended-Acts, return_stmt-Acts, raise_stmt-Acts, del_stmt-Acts, lock_stmt-Acts,
          taint_decl_stmt-Acts, guard_stmt-Acts, import_stmt-Acts, from_import_stmt-Acts,
        )
        depth 40 fits 4000

  block_stmt-Acts :
      {m : P (Option Stmt)} (f : F64)
      → Good r n
      → Acts onward (suc n) m
      → Acts onward (suc n) (block_stmt f r m)
  unfolding block_stmt is_token one_of ty_eq discriminant
  block_stmt-Acts f g a =
      search
        (
          acts_rules, func_def-Acts, class_def-Acts, if_stmt-Acts, for_stmt-Acts, while_stmt-Acts,
          try_stmt-Acts, decorated_stmt-Acts, only_stmt-Acts, seal_stmt-Acts, trace_stmt-Acts,
          cage_stmt-Acts,
        )
        depth 40 fits 4000

  pub statement-Acts : (f : F64) → Good r n → Acts onward (suc n) (statement f r)
  unfolding statement is_token one_of ty_eq discriminant
  statement-Acts f g =
      search
        (
          acts_rules, skip_semicolons-Acts, block_stmt-Acts, line_stmt-Acts, refuse_keyword-Acts,
          simple_stmt-Acts,
        )
        depth 40 fits 4000

  pub stmt_turn-Acts : (f : F64) → Good r n → (ss : Stmts) → Acts onward (suc n) (stmt_turn f r ss)
  unfolding stmt_turn
  stmt_turn-Acts f g ss = search (acts_rules, statement-Acts) depth 40 fits 4000

  stmt_turn-below : (f : F64) → Good r n → (ss : Stmts) → Acts onward n (stmt_turn f r ss)
  stmt_turn-below f g ss = lower-Acts (stmt_turn-Acts f g ss)

  block-Acts : (f : F64) → Good r n → Acts still n (block f r)
  unfolding block is_token one_of ty_eq discriminant
  block-Acts f g = search (acts_rules, stmt_turn-below) depth 40 fits 4000

  inline_turn-Turns : Good r n → (ss : Stmts) → Turns (suc n) (inline_turn r ss)
  unfolding inline_turn is_token one_of ty_eq discriminant
  inline_turn-Turns g ss = search (acts_rules, simple_stmt-Acts) depth 40 fits 4000

  pub suite-Acts : (f : F64) → Good r n → Acts onward (suc n) (suite f r)
  unfolding suite is_token one_of ty_eq discriminant
  suite-Acts f g = search (acts_rules, block-Acts, inline_turn-Turns) depth 40 fits 4000
