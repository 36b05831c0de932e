-- ===== src/Parser/Atoms.antt =====
-- src/parser.rs: the atoms of expressions, calls and subscripts.
use fly_lang.Ast.{Expr, Exprs, nil, cons, Clauses}
use fly_lang.Diagnostic.{Position}
use fly_lang.Parser.Monad.{
  P, pure, ◌>>=◌, ◌>>◌, this, errorf, when_tok, case_tok, is_token, expect, more, stop, repeat,
}
use fly_lang.Parser.Shapes.{Rec, one_of, push, push_expr, push_clause, join, comma_loop}
use fly_lang.Prelude.{true, not, Bytes, utf8, List, [], ◌∷◌}
use fly_lang.Token.{TokenType, Token, pos}

-- The strings that stand behind one.
unfoldable pub strings : List Bytes → P (List Bytes)
strings parts =
    repeat
      (λ ps.
        case_tok (is_token TokenType.string) (λ t. pure (more (push ps t.lit))) (pure (stop ps)))
      parts

abbrev pub parenthesized : Expr → Expr
parenthesized (Expr.tuple_lit at elems _) = Expr.tuple_lit at elems true
parenthesized e = e

-- Behind `(`.
unfoldable pub paren_atom : Rec → Token → P Expr
paren_atom r t = do
  e ←
      when_tok (is_token TokenType.rparen) (pure (Expr.tuple_lit (pos t) nil true))
        (do x ← r.test_list; pure (parenthesized x))
  expect TokenType.rparen
  pure e

unfoldable pub comp_ifs : Rec → P Exprs
comp_ifs r =
    repeat
      (λ ifs.
        case_tok (is_token TokenType.if_) (λ _. do c ← r.or_test; pure (more (push_expr ifs c)))
          (pure (stop ifs)))
      nil

unfoldable pub comp_clauses : Rec → P Clauses
comp_clauses r =
    repeat
      (λ cs.
        case_tok (is_token TokenType.for)
          (λ _. do
            target ← r.expr_list
            expect TokenType.in_
            iter ← r.or_test
            ifs ← comp_ifs r
            pure (more (push_clause cs target iter ifs)))
          (pure (stop cs)))
      Clauses.no_clauses

unfoldable pub list_comp : Rec → Position → Expr → P Expr
list_comp r at first = do
  clauses ← comp_clauses r
  expect TokenType.rbracket
  pure (Expr.list_comp at first clauses)

unfoldable pub list_elems : Rec → Position → Expr → P Expr
list_elems r at first = do
  elems ← comma_loop (is_token TokenType.rbracket) r.test (cons first nil)
  expect TokenType.rbracket
  pure (Expr.list_lit at elems)

-- `list_atom`, behind `[`.
unfoldable pub list_atom : Rec → Position → P Expr
list_atom r at =
    case_tok (is_token TokenType.rbracket) (λ _. pure (Expr.list_lit at nil))
      (do
        first ← r.test
        when_tok (is_token TokenType.for) (list_comp r at first) (list_elems r at first))

-- `{**d}` is refused, and read; behind `**`, the token t.
unfoldable pub dict_unpack : Rec → Position → Token → P Expr
dict_unpack r at t = do
  errorf (pos t) (utf8 "字典解包 {} 暂不支持") []
  r.test
  expect TokenType.rbrace
  pure (Expr.dict_lit at nil nil)

-- A comprehension of a dict or a set is refused, and skipped.
unfoldable pub skip_comp : Position → Expr → P Expr
skip_comp at first = do
  t ← this
  errorf (pos t) (utf8 "字典/集合推导式暂不支持") []
  repeat
      (λ u.
        case_tok (λ ty. not (one_of (TokenType.rbrace ∷ TokenType.eof ∷ []) ty))
          (λ _. pure (more u)) (pure (stop u)))
      t
  expect TokenType.rbrace
  pure (Expr.set_lit at (cons first nil))

pub record Items : Type 0 where
  pub keys : Exprs
  pub vals : Exprs

unfoldable pub dict_items : Rec → Items → P Items
dict_items r items =
    repeat
      (λ s.
        case_tok (is_token TokenType.comma)
          (λ _. when_tok (is_token TokenType.rbrace) (pure (stop s)) (do
            k ← r.test
            expect TokenType.colon
            v ← r.test
            pure (more (record { keys = push_expr s.keys k; vals = push_expr s.vals v }))))
          (pure (stop s)))
      items

unfoldable pub set_elems : Rec → Position → Expr → P Expr
set_elems r at first = do
  elems ← comma_loop (is_token TokenType.rbrace) r.test (cons first nil)
  expect TokenType.rbrace
  pure (Expr.set_lit at elems)

unfoldable pub dict_or_set : Rec → Position → Expr → P Expr
dict_or_set r at first = when_tok (is_token TokenType.for) (skip_comp at first) (
    case_tok (is_token TokenType.colon)
      (λ _. do
        v ← r.test
        items ← dict_items r (record { keys = cons first nil; vals = cons v nil })
        expect TokenType.rbrace
        pure (Expr.dict_lit at items.keys items.vals))
      (set_elems r at first))

-- `dict_set_atom`, behind `{`.
unfoldable pub dict_set_atom : Rec → Position → P Expr
dict_set_atom r at =
    case_tok (is_token TokenType.rbrace) (λ _. pure (Expr.dict_lit at nil nil))
      (case_tok (is_token TokenType.double_star) (λ t. dict_unpack r at t)
        (do first ← r.test; dict_or_set r at first))

unfoldable pub no_atom : P Expr
no_atom = do
  t ← this
  errorf (pos t) (utf8 "期望表达式，实际为 %q") (t.lit ∷ [])
  pure (Expr.name (pos t) [])

-- The tokens that are one expression.
unfoldable pub word_atom : P Expr → P Expr
word_atom otherwise =
    case_tok (is_token TokenType.ident) (λ t. pure (Expr.name (pos t) t.lit))
      (case_tok (is_token TokenType.int) (λ t. pure (Expr.int_lit (pos t) t.lit))
        (case_tok (is_token TokenType.float) (λ t. pure (Expr.float_lit (pos t) t.lit))
          (case_tok (is_token TokenType.none_) (λ t. pure (Expr.name (pos t) (utf8 "None")))
            (case_tok (is_token TokenType.true_) (λ t. pure (Expr.name (pos t) (utf8 "True")))
              (case_tok (is_token TokenType.false_) (λ t. pure (Expr.name (pos t) (utf8 "False")))
                (case_tok (is_token TokenType.ellipsis) (λ t. pure (Expr.ellipsis_lit (pos t)))
                  otherwise))))))

unfoldable pub parse_atom : Rec → P Expr
parse_atom r = word_atom (
    case_tok (is_token TokenType.string)
      (λ t. do parts ← strings (t.lit ∷ []); pure (Expr.string_lit (pos t) (join (utf8 " ") parts)))
      (case_tok (is_token TokenType.lparen) (λ t. paren_atom r t)
        (case_tok (is_token TokenType.lbracket) (λ t. list_atom r (pos t))
          (case_tok (is_token TokenType.lbrace) (λ t. dict_set_atom r (pos t)) no_atom))))
