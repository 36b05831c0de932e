-- ===== src/Parser/Blocks.antt =====
-- src/parser.rs: the statements with bodies, `statement` and `suite`.
use fly_lang.Ast.{Exprs, nil, Maybe, absent, present, Stmt, Stmts, Elifs, Handlers}
use fly_lang.Parser.Heads.{
  params, bases, test_behind, only_modules, Options, given, refused, TraceArgs, trace_args, Limits,
  cage_limits,
}
use fly_lang.Parser.Lines.{
  return_stmt, raise_stmt, del_stmt, lock_stmt, taint_decl_stmt, guard_stmt, import_stmt,
  from_import_stmt, as_name,
}
use fly_lang.Parser.Monad.{
  P, pure, ◌>>=◌, ◌>>◌, this, errorf, branch, when_tok, case_tok, is_token, expect, Go, more, stop,
  after_turn, repeat, until,
}
use fly_lang.Parser.Operators.{parse_test, parse_test_list, parse_expr_list}
use fly_lang.Parser.Specs.{F64}
use fly_lang.Parser.Shapes.{Rec, one_of, at_end, push_expr, push_stmt, push_elif, push_handler}
use fly_lang.Parser.Simple.{stmt_end, ended, skip_semicolons, simple_stmt}
use fly_lang.Prelude.{Bool, true, false, not, ◌&&◌, Bytes, utf8, [], ◌∷◌, Option, none, some}
use fly_lang.Token.{TokenType, Token, pos}

-- The statements stand behind their keyword, the token t.
unfoldable pub func_def : Rec → Token → Exprs → P (Option Stmt)
func_def r t decorators = do
  name ← expect TokenType.ident
  expect TokenType.lparen
  ps ← params r
  expect TokenType.rparen
  return_type ← test_behind TokenType.arrow r
  body ← r.suite
  pure (some (Stmt.func_def (pos t) name.lit ps return_type body decorators))

unfoldable pub only_stmt : Rec → Token → P (Option Stmt)
only_stmt r t = do
  expect TokenType.lparen
  modules ← only_modules
  expect TokenType.rparen
  body ← r.suite
  pure (some (Stmt.only (pos t) modules body))

unfoldable pub class_def : Rec → Token → Exprs → Bool → P (Option Stmt)
class_def r t decorators seal = do
  name ← expect TokenType.ident
  bs ← bases r
  body ← r.suite
  pure (some (Stmt.class_def (pos t) name.lit bs body decorators seal))

-- A message for the current token; there is no statement.
unfoldable pub give_up : Bytes → P (Option Stmt)
give_up format = do t ← this; errorf (pos t) format []; pure none

unfoldable pub seal_stmt : Rec → P (Option Stmt)
seal_stmt r =
    case_tok (is_token TokenType.class) (λ t. class_def r t nil true)
      (give_up (utf8 "seal 后必须跟随 class 定义"))

unfoldable pub trace_body : Rec → Token → Options TraceArgs → P (Option Stmt)
trace_body r t refused = pure none
trace_body r t (given s) = do
  expect TokenType.rparen
  body ← r.suite
  pure (some (Stmt.trace (pos t) s.level s.args s.ret body))

unfoldable pub trace_stmt : Rec → Token → P (Option Stmt)
trace_stmt r t = do expect TokenType.lparen; options ← trace_args; trace_body r t options

unfoldable pub cage_body : Rec → Token → Options Limits → P (Option Stmt)
cage_body r t refused = pure none
cage_body r t (given s) = do
  expect TokenType.rparen
  branch (not s.has_time && not s.has_mem)
      (do errorf (pos t) (utf8 "cage 需至少指定 max_time 或 max_memory 之一") []; pure none)
      (do
        body ← r.suite
        pure (some (Stmt.cage (pos t) s.has_time s.max_time s.has_mem s.max_memory body)))

unfoldable pub cage_stmt : F64 → Rec → Token → P (Option Stmt)
cage_stmt f r t = do expect TokenType.lparen; options ← cage_limits f; cage_body r t options

-- A body behind a keyword, which may be left out.
unfoldable pub suite_behind : TokenType → Rec → P Stmts
suite_behind ty r = case_tok (is_token ty) (λ _. r.suite) (pure Stmts.done)

unfoldable pub elif_turn : Rec → Elifs → P (Go Elifs)
elif_turn r es =
    case_tok (is_token TokenType.elif)
      (λ t. do c ← parse_test_list r; body ← r.suite; pure (more (push_elif es (pos t) c body)))
      (pure (stop es))

unfoldable pub if_stmt : Rec → Token → P (Option Stmt)
if_stmt r t = do
  c ← parse_test_list r
  then_body ← r.suite
  elifs ← repeat (elif_turn r) Elifs.no_elifs
  els ← suite_behind TokenType.else_ r
  pure (some (Stmt.if_ (pos t) c then_body elifs els))

unfoldable pub for_stmt : Rec → Token → P (Option Stmt)
for_stmt r t = do
  target ← parse_expr_list r
  expect TokenType.in_
  iter ← parse_test_list r
  body ← r.suite
  els ← suite_behind TokenType.else_ r
  pure (some (Stmt.for (pos t) target iter body els))

unfoldable pub while_stmt : Rec → Token → P (Option Stmt)
while_stmt r t = do
  c ← parse_test_list r
  body ← r.suite
  els ← suite_behind TokenType.else_ r
  pure (some (Stmt.while (pos t) c body els))

-- The type of an exception and its name.
unfoldable pub except_head : Rec → P (Maybe × Bytes)
except_head r =
    when_tok (is_token TokenType.colon) (pure (absent, []))
      (do ty ← parse_test r; name ← as_name; pure (present ty, name))

unfoldable pub except_turn : Rec → Handlers → P (Go Handlers)
except_turn r hs =
    case_tok (is_token TokenType.except)
      (λ t. do
        head ← except_head r
        body ← r.suite
        pure (more (push_handler hs (pos t) head.0 head.1 body)))
      (pure (stop hs))

unfoldable pub try_stmt : Rec → Token → P (Option Stmt)
try_stmt r t = do
  body ← r.suite
  handlers ← repeat (except_turn r) Handlers.no_handlers
  els ← suite_behind TokenType.else_ r
  finally ← suite_behind TokenType.finally r
  pure (some (Stmt.try (pos t) body handlers els finally))

-- Behind `@`.
unfoldable pub decorator : Rec → Exprs → P (Go Exprs)
decorator r decs = do
  e ← parse_test_list r
  case_tok (is_token TokenType.newline) (λ _. pure (more (push_expr decs e)))
      (do stmt_end; pure (stop (push_expr decs e)))

unfoldable pub decorator_turn : Rec → Exprs → P (Go Exprs)
decorator_turn r decs = case_tok (is_token TokenType.at) (λ _. decorator r decs) (pure (stop decs))

-- Behind the first `@`.
unfoldable pub decorated_stmt : Rec → P (Option Stmt)
decorated_stmt r = do
  g ← decorator r nil
  decs ← after_turn (repeat (decorator_turn r)) g
  case_tok (is_token TokenType.def) (λ t. func_def r t decs)
      (case_tok (is_token TokenType.class) (λ t. class_def r t decs false)
        (give_up (utf8 "装饰器后必须跟随 def 或 class")))

abbrev pub unsupported : TokenType → Bool
unsupported = one_of (
    TokenType.assert ∷ TokenType.with ∷ TokenType.yield ∷ TokenType.global ∷ TokenType.nonlocal
    ∷ TokenType.lambda ∷ TokenType.async ∷ TokenType.await ∷ [])

unfoldable pub refuse_keyword : P (Option Stmt)
refuse_keyword = do t ← this; errorf (pos t) (utf8 "关键字 %s 暂不支持") (t.lit ∷ []); pure none

-- The statements that begin with a keyword and stand on one line.
unfoldable pub line_stmt : Rec → P (Option Stmt) → P (Option Stmt)
line_stmt r otherwise =
    case_tok (is_token TokenType.return) (λ t. return_stmt r t)
      (case_tok (is_token TokenType.raise) (λ t. raise_stmt r t)
        (case_tok (is_token TokenType.pass) (λ t. ended (Stmt.pass (pos t)))
          (case_tok (is_token TokenType.break) (λ t. ended (Stmt.break (pos t)))
            (case_tok (is_token TokenType.continue) (λ t. ended (Stmt.continue (pos t)))
              (case_tok (is_token TokenType.del) (λ t. del_stmt r t)
                (case_tok (is_token TokenType.import) (λ t. import_stmt t)
                  (case_tok (is_token TokenType.from) (λ t. from_import_stmt t)
                    (case_tok (is_token TokenType.lock) (λ t. lock_stmt r t)
                      (case_tok (is_token TokenType.guard) (λ t. guard_stmt r t)
                        (case_tok (one_of (TokenType.safe ∷ TokenType.mask ∷ []))
                          (λ t. taint_decl_stmt (is_token TokenType.safe t.ty) t)
                          otherwise))))))))))

-- Those that have a body.
unfoldable pub block_stmt : F64 → Rec → P (Option Stmt) → P (Option Stmt)
block_stmt f r otherwise =
    case_tok (is_token TokenType.def) (λ t. func_def r t nil)
      (case_tok (is_token TokenType.class) (λ t. class_def r t nil false)
        (case_tok (is_token TokenType.if_) (λ t. if_stmt r t)
          (case_tok (is_token TokenType.for) (λ t. for_stmt r t)
            (case_tok (is_token TokenType.while) (λ t. while_stmt r t)
              (case_tok (is_token TokenType.try) (λ t. try_stmt r t)
                (case_tok (is_token TokenType.at) (λ _. decorated_stmt r)
                  (case_tok (is_token TokenType.only) (λ t. only_stmt r t)
                    (case_tok (is_token TokenType.seal) (λ _. seal_stmt r)
                      (case_tok (is_token TokenType.trace) (λ t. trace_stmt r t)
                        (case_tok (is_token TokenType.cage) (λ t. cage_stmt f r t)
                          otherwise))))))))))

unfoldable pub statement : F64 → Rec → P (Option Stmt)
statement f r =
    case_tok (is_token TokenType.newline) (λ _. pure none)
      (case_tok (is_token TokenType.semicolon) (λ _. do skip_semicolons; pure none)
        (block_stmt f r (line_stmt r (when_tok unsupported refuse_keyword (simple_stmt r)))))

unfoldable pub push_some : Stmts → Option Stmt → Stmts
push_some ss none = ss
push_some ss (some s) = push_stmt ss s

-- A turn of the loops over statements.
unfoldable pub stmt_turn : F64 → Rec → Stmts → P Stmts
stmt_turn f r ss = do o ← statement f r; pure (push_some ss o)

-- The body on the lines below, behind the line's end.
unfoldable pub block : F64 → Rec → P Stmts
block f r = do
  expect TokenType.indent
  ss ← until (one_of (TokenType.dedent ∷ TokenType.eof ∷ [])) (stmt_turn f r) Stmts.done
  expect TokenType.dedent
  pure ss

unfoldable pub inline_turn : Rec → Stmts → P (Go Stmts)
inline_turn r ss = do
  o ← simple_stmt r
  let ss' = push_some ss o
  case_tok (is_token TokenType.semicolon) (λ _. when_tok at_end (pure (stop ss')) (pure (more ss')))
      (pure (stop ss'))

unfoldable pub suite : F64 → Rec → P Stmts
suite f r = do
  expect TokenType.colon
  case_tok (is_token TokenType.newline) (λ _. block f r) (repeat (inline_turn r) Stmts.done)
