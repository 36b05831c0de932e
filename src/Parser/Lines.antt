-- ===== src/Parser/Lines.antt =====
-- src/parser.rs: the statements of one line that begin with a keyword.
use fly_lang.Ast.{Expr, Exprs, nil, cons, absent, present, Stmt, ImportItem}
use fly_lang.Diagnostic.{Position}
use fly_lang.Lexer.Cursor.{is_empty}
use fly_lang.Parser.Monad.{
  P, pure, ◌>>=◌, ◌>>◌, peek, errorf, branch, when_tok, case_tok, is_token, expect, Go, more, stop,
  repeat,
}
use fly_lang.Parser.Operators.{parse_test, parse_test_list}
use fly_lang.Parser.Shapes.{Rec, at_end, push, push_expr, join, unless, at_comma}
use fly_lang.Parser.Simple.{ended}
use fly_lang.Prelude.{Bool, Bytes, utf8, if◌then◌else◌, List, [], ◌∷◌, ◌++◌, Option}
use fly_lang.Token.{TokenType, Token, pos}

-- The statements stand behind their keyword, the token t.
unfoldable pub return_stmt : Rec → Token → P (Option Stmt)
return_stmt r t = do value ← unless at_end (parse_test_list r); ended (Stmt.return (pos t) value)

unfoldable pub raise_stmt : Rec → Token → P (Option Stmt)
raise_stmt r t = do
  exc ← unless at_end (parse_test_list r)
  from ←
      case_tok (is_token TokenType.from) (λ _. do e ← parse_test_list r; pure (present e))
        (pure absent)
  ended (Stmt.raise (pos t) exc from)

unfoldable pub del_stmt : Rec → Token → P (Option Stmt)
del_stmt r t = do
  targets ← repeat (λ es. do e ← parse_test_list r; at_comma (push_expr es e)) nil
  ended (Stmt.delete (pos t) targets)

unfoldable pub need_name : Position → Bytes → P (Unit {0})
need_name at name = branch (is_empty name) (errorf at (utf8 "lock 需要一个变量名") []) (pure tt)

unfoldable pub lock_stmt : Rec → Token → P (Option Stmt)
lock_stmt r t = do
  name ← case_tok (is_token TokenType.ident) (λ u. pure u.lit) (pure [])
  value ←
      case_tok (is_token TokenType.assign)
        (λ _. do v ← parse_test_list r; need_name (pos t) name; pure (present v))
        (do need_name (pos t) name; pure absent)
  ended (Stmt.lock (pos t) name value)

unfoldable pub taint_decl_stmt : Bool → Token → P (Option Stmt)
taint_decl_stmt safe t = do
  names ← repeat (λ ns. do u ← expect TokenType.ident; at_comma (push ns u.lit)) []
  ended (if safe then Stmt.safe (pos t) names else Stmt.mask (pos t) names)

unfoldable pub guard_conds : Rec → P Exprs
guard_conds r =
    repeat
      (λ es.
        case_tok (is_token TokenType.comma) (λ _. do e ← parse_test r; pure (more (push_expr es e)))
          (pure (stop es)))
      nil

-- A name and a colon stand here, so `expect` only reads them.
unfoldable pub typed_guard : Rec → Token → P (Option Stmt)
typed_guard r t = do
  name ← expect TokenType.ident
  expect TokenType.colon
  ty ← parse_test r
  conds ← guard_conds r
  ended (Stmt.guard (pos t) name.lit (present ty) conds)

abbrev pub conds_of : Expr → Exprs
conds_of (Expr.tuple_lit _ elems _) = elems
conds_of e = cons e nil

unfoldable pub plain_guard : Rec → Token → P (Option Stmt)
plain_guard r t = do e ← parse_test_list r; ended (Stmt.guard (pos t) [] absent (conds_of e))

unfoldable pub guard_stmt : Rec → Token → P (Option Stmt)
guard_stmt r t =
    when_tok (is_token TokenType.ident)
      (do u ← peek; branch (is_token TokenType.colon u.ty) (typed_guard r t) (plain_guard r t))
      (plain_guard r t)

unfoldable pub dotted_name : P Bytes
dotted_name = do
  t ← expect TokenType.ident
  parts ←
      repeat
        (λ ps.
          case_tok (is_token TokenType.dot)
            (λ _. do u ← expect TokenType.ident; pure (more (push ps u.lit))) (pure (stop ps)))
        (t.lit ∷ [])
  pure (join (utf8 ".") parts)

-- A name behind `as`.
unfoldable pub as_name : P Bytes
as_name =
    case_tok (is_token TokenType.as_) (λ _. do u ← expect TokenType.ident; pure u.lit) (pure [])

unfoldable pub import_turn : List ImportItem → P (Go (List ImportItem))
import_turn items = do
  name ← dotted_name
  alias ← as_name
  at_comma (push items (record { name = name; alias = alias }))

unfoldable pub import_stmt : Token → P (Option Stmt)
import_stmt t = do items ← repeat import_turn []; ended (Stmt.import (pos t) items)

abbrev pub star_item : ImportItem
star_item = record { name = utf8 "*"; alias = [] }

unfoldable pub from_import_turn : List ImportItem → P (Go (List ImportItem))
from_import_turn items =
    case_tok (is_token TokenType.star) (λ _. pure (stop (push items star_item)))
      (do
        name ← expect TokenType.ident
        alias ← as_name
        at_comma (push items (record { name = name.lit; alias = alias })))

-- The dots in front of a module's name, and the name.
unfoldable pub from_module : P Bytes
from_module = do
  dots ←
      repeat
        (λ ds. case_tok (is_token TokenType.dot) (λ _. pure (more (push ds b'.'))) (pure (stop ds)))
        []
  when_tok (is_token TokenType.ident) (do name ← dotted_name; pure (dots ++ name)) (pure dots)

unfoldable pub from_import_stmt : Token → P (Option Stmt)
from_import_stmt t = do
  module_name ← from_module
  expect TokenType.import
  items ←
      case_tok (is_token TokenType.star) (λ _. pure (star_item ∷ [])) (repeat from_import_turn [])
  ended (Stmt.from_import (pos t) module_name items)
