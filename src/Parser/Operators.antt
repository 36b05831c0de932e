-- ===== src/Parser/Operators.antt =====
-- src/parser.rs: operators, from `parse_power` up to `parse_test`, and the lists of tests and of expressions.
use fly_lang.Ast.{Expr, Exprs, nil, cons, expr_pos}
use fly_lang.Parser.Monad.{
  P, pure, ◌>>=◌, ◌>>◌, this, when_tok, case_tok, is_token, expect, Go, more, stop, repeat,
}
use fly_lang.Parser.Postfix.{parse_atom_expr}
use fly_lang.Parser.Shapes.{Rec, one_of, at_end, push, push_expr, comma_loop, left_assoc}
use fly_lang.Prelude.{Bool, false, ◌||◌, Bytes, utf8, List, [], ◌∷◌}
use fly_lang.Token.{TokenType, Token, pos}

unfoldable pub parse_power : Rec → P Expr
parse_power r = do
  x ← parse_atom_expr r
  case_tok (is_token TokenType.double_star)
      (λ t. do y ← r.factor; pure (Expr.bin_op (pos t) (utf8 "**") x y)) (pure x)

unfoldable pub parse_factor : Rec → P Expr
parse_factor r =
    case_tok (one_of (TokenType.plus ∷ TokenType.minus ∷ TokenType.tilde ∷ []))
      (λ t. do x ← r.factor; pure (Expr.unary_op (pos t) t.lit x)) (parse_power r)

-- The node of an operator that keeps its text.
abbrev pub by_text : Token → Expr → Expr → Expr
by_text t x y = Expr.bin_op (pos t) t.lit x y

abbrev pub by_name : Bytes → Token → Expr → Expr → Expr
by_name op t x y = Expr.bin_op (pos t) op x y

abbrev pub by_logic : Token → Expr → Expr → Expr
by_logic t x y = Expr.bool_op (pos t) t.lit x y

unfoldable pub parse_term : Rec → P Expr
parse_term r =
    left_assoc
      (one_of (TokenType.star ∷ TokenType.slash ∷ TokenType.floor_div ∷ TokenType.percent ∷ []))
      by_text (parse_factor r)

unfoldable pub parse_arith : Rec → P Expr
parse_arith r = left_assoc (one_of (TokenType.plus ∷ TokenType.minus ∷ [])) by_text (parse_term r)

unfoldable pub parse_shift : Rec → P Expr
parse_shift r = left_assoc (one_of (TokenType.shl ∷ TokenType.shr ∷ [])) by_text (parse_arith r)

unfoldable pub parse_bit_and : Rec → P Expr
parse_bit_and r = left_assoc (is_token TokenType.amp) (by_name (utf8 "&")) (parse_shift r)

unfoldable pub parse_bit_xor : Rec → P Expr
parse_bit_xor r = left_assoc (is_token TokenType.caret) (by_name (utf8 "^")) (parse_bit_and r)

unfoldable pub parse_bit_or : Rec → P Expr
parse_bit_or r = left_assoc (is_token TokenType.pipe) (by_name (utf8 "|")) (parse_bit_xor r)

unfoldable pub is_comp_op : TokenType → Bool
is_comp_op = one_of (
    TokenType.lt ∷ TokenType.gt ∷ TokenType.le ∷ TokenType.ge ∷ TokenType.eq_eq ∷ TokenType.ne
    ∷ TokenType.in_ ∷ TokenType.is ∷ TokenType.not_ ∷ [])

-- Behind the operator's first token, of type ty.
unfoldable pub comp_op : TokenType → P Bytes
comp_op TokenType.lt = pure (utf8 "<")
comp_op TokenType.gt = pure (utf8 ">")
comp_op TokenType.le = pure (utf8 "<=")
comp_op TokenType.ge = pure (utf8 ">=")
comp_op TokenType.eq_eq = pure (utf8 "==")
comp_op TokenType.ne = pure (utf8 "!=")
comp_op TokenType.in_ = pure (utf8 "in")
comp_op TokenType.is =
    case_tok (is_token TokenType.not_) (λ _. pure (utf8 "is not")) (pure (utf8 "is"))
comp_op TokenType.not_ = do expect TokenType.in_; pure (utf8 "not in")
comp_op _ = pure []

pub record Links : Type 0 where
  pub ops : List Bytes
  pub ys : Exprs

unfoldable pub comp_turn : P Expr → Links → P (Go Links)
comp_turn operand s =
    case_tok is_comp_op
      (λ t. do
        op ← comp_op t.ty
        y ← operand
        pure (more (record { ops = push s.ops op; ys = push_expr s.ys y })))
      (pure (stop s))

unfoldable pub parse_comparison : Rec → P Expr
parse_comparison r = do
  x ← parse_bit_or r
  when_tok is_comp_op
      (do
        s ← repeat (comp_turn (parse_bit_or r)) (record { ops = []; ys = nil })
        pure (Expr.compare (expr_pos x) x s.ops s.ys))
      (pure x)

unfoldable pub parse_not_test : Rec → P Expr
parse_not_test r =
    case_tok (is_token TokenType.not_)
      (λ t. do x ← r.not_test; pure (Expr.unary_op (pos t) (utf8 "not") x)) (parse_comparison r)

unfoldable pub parse_and_test : Rec → P Expr
parse_and_test r = left_assoc (is_token TokenType.and_) by_logic (parse_not_test r)

unfoldable pub parse_or_test : Rec → P Expr
parse_or_test r = left_assoc (is_token TokenType.or_) by_logic (parse_and_test r)

-- Behind `if`.
unfoldable pub conditional : Rec → Expr → P Expr
conditional r x = do
  c ← parse_or_test r
  expect TokenType.else_
  els ← r.test
  pure (Expr.cond (expr_pos x) c x els)

unfoldable pub parse_test : Rec → P Expr
parse_test r = do
  x ← parse_or_test r
  case_tok (is_token TokenType.if_) (λ _. conditional r x) (pure x)

-- `test_item` and `expr_item`
unfoldable pub item : P Expr → P Expr
item operand =
    case_tok (is_token TokenType.star)
      (λ t. do x ← operand; pure (Expr.unary_op (pos t) (utf8 "*") x)) operand

-- `parse_test_list` and `parse_expr_list`, whose last comma stands before a token that passes `test`.
unfoldable pub item_list : (TokenType → Bool) → P Expr → P Expr
item_list test one = do
  t ← this
  first ← one
  when_tok (is_token TokenType.comma)
      (do elems ← comma_loop test one (cons first nil); pure (Expr.tuple_lit (pos t) elems false))
      (pure first)

unfoldable pub parse_test_list : Rec → P Expr
parse_test_list r =
    item_list
      (λ t.
        at_end t
        || one_of (TokenType.colon ∷ TokenType.rparen ∷ TokenType.rbracket ∷ TokenType.rbrace ∷ [])
            t)
      (item (parse_test r))

unfoldable pub parse_expr_list : Rec → P Expr
parse_expr_list r = item_list (λ t. at_end t || is_token TokenType.colon t) (item (parse_bit_or r))
