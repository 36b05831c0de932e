-- ===== src/Parser/Postfix.antt =====
-- src/parser.rs: what stands behind an atom, `call_args`, `subscript` and `parse_atom_expr`.
use fly_lang.Ast.{Expr, Exprs, nil, cons, Maybe, absent, present, KwArgs, expr_pos}
use fly_lang.Diagnostic.{Position}
use fly_lang.Parser.Atoms.{parse_atom}
use fly_lang.Parser.Monad.{
  P, pure, ◌>>=◌, ◌>>◌, this, errorf, when_tok, case_tok, is_token, expect, Go, more, stop, repeat,
}
use fly_lang.Parser.Shapes.{Rec, one_of, push_expr, push_kwarg, unless, at_comma, comma_loop}
use fly_lang.Prelude.{Bool, false, utf8, [], ◌∷◌}
use fly_lang.Token.{TokenType, Token, pos}

pub record Args : Type 0 where
  pub args : Exprs
  pub kwargs : KwArgs
  pub star : Maybe
  pub dbl_star : Maybe

-- Behind `=`, whose left side is `e`.
unfoldable pub keyword_arg : Rec → Args → Expr → P (Go Args)
keyword_arg r s (Expr.name at name) = do
  v ← r.test
  at_comma (record s { kwargs = push_kwarg s.kwargs at name v })
keyword_arg r s e = do errorf (expr_pos e) (utf8 "关键字参数名必须是标识符") []; pure (more s)

unfoldable pub plain_arg : Rec → Args → P (Go Args)
plain_arg r s = do
  e ← r.test
  case_tok (is_token TokenType.assign) (λ _. keyword_arg r s e)
      (at_comma (record s { args = push_expr s.args e }))

unfoldable pub arg_turn : Rec → Args → P (Go Args)
arg_turn r s = when_tok (is_token TokenType.rparen) (pure (stop s)) (
    case_tok (is_token TokenType.star)
      (λ _. do e ← r.test; at_comma (record s { star = present e }))
      (case_tok (is_token TokenType.double_star)
        (λ _. do e ← r.test; at_comma (record s { dbl_star = present e })) (plain_arg r s)))

-- `call_args`, behind `(`.
unfoldable pub call_args : Rec → Token → Expr → P Expr
call_args r t f = do
  s ←
      repeat (arg_turn r)
        (record { args = nil; kwargs = KwArgs.no_kwargs; star = absent; dbl_star = absent })
  expect TokenType.rparen
  pure (Expr.call (pos t) f s.args s.kwargs s.star s.dbl_star)

-- The tokens at which a bound of a slice is left out.
abbrev pub no_bound : TokenType → Bool
no_bound = one_of (TokenType.colon ∷ TokenType.rbracket ∷ TokenType.comma ∷ [])

-- Behind the first colon of a slice.
unfoldable pub slice : Rec → Position → Maybe → P Expr
slice r at lo = do
  hi ← unless no_bound r.test
  step ←
      case_tok (is_token TokenType.colon)
        (λ _. unless (one_of (TokenType.rbracket ∷ TokenType.comma ∷ [])) r.test) (pure absent)
  pure (Expr.slice at lo hi step)

abbrev pub elems_of : Maybe → Exprs
elems_of absent = nil
elems_of (present e) = cons e nil

unfoldable pub index_or_name : Maybe → P Expr
index_or_name (present e) = pure e
index_or_name absent = do t ← this; pure (Expr.name (pos t) [])

unfoldable pub parse_subscript_index : Rec → P Expr
parse_subscript_index r = do
  t ← this
  lo ← unless no_bound r.test
  case_tok (is_token TokenType.colon) (λ _. slice r (pos t) lo)
      (when_tok (is_token TokenType.comma)
        (do
          elems ← comma_loop (is_token TokenType.rbracket) r.test (elems_of lo)
          pure (Expr.tuple_lit (pos t) elems false))
        (index_or_name lo))

-- `subscript`, behind `[`.
unfoldable pub subscript : Rec → Token → Expr → P Expr
subscript r t x = do
  index ← parse_subscript_index r
  expect TokenType.rbracket
  pure (Expr.subscript (pos t) x index)

unfoldable pub postfix_turn : Rec → Expr → P (Go Expr)
postfix_turn r x =
    case_tok (is_token TokenType.lparen) (λ t. do e ← call_args r t x; pure (more e))
      (case_tok (is_token TokenType.lbracket) (λ t. do e ← subscript r t x; pure (more e))
        (case_tok (is_token TokenType.dot)
          (λ _. do name ← expect TokenType.ident; pure (more (Expr.attr (pos name) x name.lit)))
          (pure (stop x))))

unfoldable pub parse_atom_expr : Rec → P Expr
parse_atom_expr r = do x ← parse_atom r; repeat (postfix_turn r) x
