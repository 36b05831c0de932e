-- ===== src/Parser/Simple.antt =====
-- src/parser.rs: the statements of one line.
use fly_lang.Ast.{Expr, Exprs, nil, cons, Stmt, expr_pos}
use fly_lang.Lexer.Cursor.{is_empty}
use fly_lang.Parser.Monad.{
  P, pure, ◌>>=◌, ◌>>◌, this, errorf, branch, when_tok, case_tok, is_token, Go, more, stop, repeat,
}
use fly_lang.Parser.Operators.{parse_test_list}
use fly_lang.Parser.Shapes.{Rec, one_of, at_end, push_expr}
use fly_lang.Prelude.{
  Bool, true, false, ◌&&◌, ◌||◌, Bytes, utf8, bytes_eq, if◌then◌else◌, [], ◌∷◌, Option, none, some,
}
use fly_lang.Token.{TokenType, Token, pos}

unfoldable pub skip_semicolons : P (Unit {0})
skip_semicolons =
    repeat (λ u. case_tok (is_token TokenType.semicolon) (λ _. pure (more u)) (pure (stop u))) tt

unfoldable pub stmt_end : P (Unit {0})
stmt_end = do
  skip_semicolons
  when_tok (one_of (TokenType.newline ∷ TokenType.eof ∷ [])) (pure tt)
      (do t ← this; errorf (pos t) (utf8 "期望语句结束，实际为 %q") (t.lit ∷ []))
  case_tok (is_token TokenType.newline) (λ _. pure tt) (pure tt)

-- The end of a statement that is read.
unfoldable pub ended : Stmt → P (Option Stmt)
ended s = do stmt_end; pure (some s)

unfoldable pub is_aug_assign : TokenType → Bool
is_aug_assign = one_of (
    TokenType.plus_assign ∷ TokenType.minus_assign ∷ TokenType.star_assign ∷ TokenType.slash_assign
    ∷ TokenType.percent_assign ∷ TokenType.double_star_assign ∷ TokenType.floor_div_assign
    ∷ TokenType.shl_assign ∷ TokenType.shr_assign ∷ TokenType.amp_assign ∷ TokenType.pipe_assign
    ∷ TokenType.caret_assign ∷ [])

abbrev pub is_name : Expr → Bool
is_name (Expr.name _ _) = true
is_name _ = false

unfoldable mutual
  pub check_target : Expr → Bool
  check_target (Expr.name _ _) = true
  check_target (Expr.attr _ _ _) = true
  check_target (Expr.subscript _ _ _) = true
  check_target (Expr.tuple_lit _ elems _) = check_targets elems
  check_target (Expr.list_lit _ elems) = check_targets elems
  check_target (Expr.unary_op _ op x) = if bytes_eq op (utf8 "*") then is_name x else false
  check_target _ = false

  pub check_targets : Exprs → Bool
  check_targets nil = true
  check_targets (cons e es) = check_target e && check_targets es

unfoldable pub need_target : Expr → P (Unit {0})
need_target e = branch (check_target e) (pure tt) (errorf (expr_pos e) (utf8 "非法赋值目标") [])

-- The targets but the first, the operator, and what stands behind the last `=`.
pub record Sides : Type 0 where
  pub left : Exprs
  pub op : Bytes
  pub right : Expr

unfoldable pub chain_turn : Rec → Sides → P (Go Sides)
chain_turn r s =
    case_tok (is_token TokenType.assign)
      (λ _. do
        need_target s.right
        e ← parse_test_list r
        pure (more (record { left = push_expr s.left s.right; op = utf8 "="; right = e })))
      (pure (stop s))

-- Behind the first target and the operator's token.
unfoldable pub assign_from : Rec → Expr → Token → P Stmt
assign_from r first t = do
  e ← parse_test_list r
  s ← repeat (chain_turn r) (record { left = nil; op = t.lit; right = e })
  need_target first
  pure (Stmt.assign (expr_pos first) (cons first s.left) s.op s.right)

unfoldable pub assignment : Rec → Expr → P Stmt
assignment r e =
    case_tok (λ ty. is_token TokenType.assign ty || is_aug_assign ty) (λ t. assign_from r e t)
      (pure (Stmt.expr_stmt (expr_pos e) e))

-- The first statement of a line, or no expression where one is due.
pub data Line : Type 0 where
  kept : Option Stmt → Line
  no_expr : Line

abbrev pub or_else : Option Stmt → Stmt → Option Stmt
or_else none s = some s
or_else (some first) s = some first

abbrev pub is_nameless : Expr → Bool
is_nameless (Expr.name _ name) = is_empty name
is_nameless _ = false

abbrev pub first_of_line : Line → Option Stmt
first_of_line (Line.kept o) = o
first_of_line Line.no_expr = none

unfoldable pub line_turn : Rec → Line → P (Go Line)
line_turn r l = do
  e ← parse_test_list r
  branch (is_nameless e) (pure (stop Line.no_expr)) (do
    s ← assignment r e
    let l' = Line.kept (or_else (first_of_line l) s)
    case_tok (is_token TokenType.semicolon) (λ _. when_tok at_end (pure (stop l')) (pure (more l')))
        (pure (stop l')))

unfoldable pub end_of_line : Line → P (Option Stmt)
end_of_line (Line.kept o) = do stmt_end; pure o
end_of_line Line.no_expr = pure none

unfoldable pub after_line : Rec → Go Line → P (Option Stmt)
after_line r (more l) = do l' ← repeat (line_turn r) l; end_of_line l'
after_line r (stop l) = end_of_line l

unfoldable pub simple_stmt : Rec → P (Option Stmt)
simple_stmt r = do g ← line_turn r (Line.kept none); after_line r g
