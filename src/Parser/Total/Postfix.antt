-- ===== src/Parser/Total/Postfix.antt =====
-- src/parser.rs: calls, subscripts and attributes return.
use fly_lang.Ast.{Expr, Maybe, absent, present}
use fly_lang.Diagnostic.{Position}
use fly_lang.Parser.Acts.{still, onward, Acts, Turns}
use fly_lang.Parser.Monad.{P, is_token}
use fly_lang.Parser.Postfix.{
  Args, keyword_arg, plain_arg, arg_turn, call_args, slice, index_or_name, parse_subscript_index,
  subscript, postfix_turn, parse_atom_expr,
}
use fly_lang.Parser.Rules.{acts_rules}
use fly_lang.Parser.Shapes.{Rec, unless, at_comma}
use fly_lang.Parser.Total.{Good}
use fly_lang.Parser.Total.Atoms.{comma_loop-Acts, parse_atom-Acts}
use fly_lang.Prelude.{ℕ, suc, Bool}
use fly_lang.Token.{TokenType, Token, ty_eq, discriminant}

pub unless-Acts :
    {n : ℕ} {m : P Expr} (test : TokenType → Bool) → Acts onward n m → Acts still n (unless test m)
unfolding unless
unless-Acts test a = search acts_rules depth 30 fits 3000

pub at_comma-Turns : {n : ℕ} {S : Type 0} (s : S) → Turns n (at_comma s)
unfolding at_comma is_token ty_eq discriminant
at_comma-Turns s = search acts_rules depth 30 fits 3000

pub at_comma-Acts : {n : ℕ} {S : Type 0} (s : S) → Acts still n (at_comma s)
unfolding at_comma is_token ty_eq discriminant
at_comma-Acts s = search acts_rules depth 30 fits 3000

index_or_name-Acts : {n : ℕ} (lo : Maybe) → Acts still n (index_or_name lo)
unfolding index_or_name
index_or_name-Acts absent = search acts_rules depth 30 fits 3000
index_or_name-Acts (present e) = search acts_rules depth 30 fits 3000

ruleset postfix_rules =
    (acts_rules, comma_loop-Acts, unless-Acts, at_comma-Turns, at_comma-Acts, index_or_name-Acts)

module _ {r : Rec} {n : ℕ} where
  keyword_arg-Acts : Good r n → (s : Args) (e : Expr) → Acts still n (keyword_arg r s e)
  unfolding keyword_arg
  keyword_arg-Acts g s (Expr.name at name) = search postfix_rules depth 30 fits 3000
  keyword_arg-Acts g s e = search postfix_rules depth 30 fits 3000

  plain_arg-Turns : Good r n → (s : Args) → Turns n (plain_arg r s)
  unfolding plain_arg is_token ty_eq discriminant
  plain_arg-Turns g s = search (postfix_rules, keyword_arg-Acts) depth 30 fits 3000

  arg_turn-Turns : Good r n → (s : Args) → Turns n (arg_turn r s)
  unfolding arg_turn is_token ty_eq discriminant
  arg_turn-Turns g s = search (postfix_rules, plain_arg-Turns) depth 30 fits 3000

  call_args-Acts : Good r n → (t : Token) (f : Expr) → Acts still n (call_args r t f)
  unfolding call_args is_token ty_eq discriminant
  call_args-Acts g t f = search (postfix_rules, arg_turn-Turns) depth 30 fits 3000

  slice-Acts : Good r n → (at : Position) (lo : Maybe) → Acts still n (slice r at lo)
  unfolding slice is_token ty_eq discriminant
  slice-Acts g at lo = search postfix_rules depth 30 fits 3000

  parse_subscript_index-Acts : Good r n → Acts still n (parse_subscript_index r)
  unfolding parse_subscript_index is_token ty_eq discriminant
  parse_subscript_index-Acts g = search (postfix_rules, slice-Acts) depth 30 fits 3000

  subscript-Acts : Good r n → (t : Token) (x : Expr) → Acts still n (subscript r t x)
  unfolding subscript is_token ty_eq discriminant
  subscript-Acts g t x = search (postfix_rules, parse_subscript_index-Acts) depth 30 fits 3000

  postfix_turn-Turns : Good r n → (x : Expr) → Turns (suc n) (postfix_turn r x)
  unfolding postfix_turn is_token ty_eq discriminant
  postfix_turn-Turns g x = search (postfix_rules, call_args-Acts, subscript-Acts) depth 30 fits 3000

  pub parse_atom_expr-Acts : Good r n → Acts onward (suc n) (parse_atom_expr r)
  unfolding parse_atom_expr
  parse_atom_expr-Acts g =
      search (postfix_rules, parse_atom-Acts, postfix_turn-Turns) depth 30 fits 3000
