-- ===== src/Parser/Total/Atoms.antt =====
-- src/parser.rs: atoms return.
use fly_lang.Ast.{Expr, Exprs}
use fly_lang.Diagnostic.{Position}
use fly_lang.Parser.Acts.{still, onward, Acts}
use fly_lang.Parser.Atoms.{
  strings, paren_atom, comp_ifs, comp_clauses, list_comp, list_elems, list_atom, dict_unpack,
  skip_comp, Items, dict_items, set_elems, dict_or_set, dict_set_atom, no_atom, word_atom,
  parse_atom,
}
use fly_lang.Parser.Monad.{P, is_token}
use fly_lang.Parser.Rules.{acts_rules, bind_next}
use fly_lang.Parser.Shapes.{Rec, one_of, comma_loop}
use fly_lang.Parser.Total.{Good}
use fly_lang.Prelude.{ℕ, suc, Bool, Bytes, List}
use fly_lang.Token.{TokenType, Token, ty_eq, discriminant}

pub comma_loop-Acts :
    {n : ℕ} {m : P Expr} (test : TokenType → Bool) (es : Exprs)
    → Acts onward n m
    → Acts still n (comma_loop test m es)
unfolding comma_loop is_token ty_eq discriminant
comma_loop-Acts test es a = search acts_rules depth 30 fits 3000

strings-Acts : {n : ℕ} (parts : List Bytes) → Acts still n (strings parts)
unfolding strings is_token ty_eq discriminant
strings-Acts parts = search acts_rules depth 30 fits 3000

skip_comp-Acts : {n : ℕ} (at : Position) (e : Expr) → Acts still n (skip_comp at e)
unfolding skip_comp is_token one_of ty_eq discriminant
skip_comp-Acts at e = search acts_rules depth 30 fits 3000

no_atom-Acts : {k : ℕ} → Acts onward k no_atom
unfolding no_atom
no_atom-Acts = search (acts_rules, bind_next) depth 30 fits 3000

word_atom-Acts : {k : ℕ} {m : P Expr} → Acts onward k m → Acts onward k (word_atom m)
unfolding word_atom is_token ty_eq discriminant
word_atom-Acts a = search acts_rules depth 30 fits 3000

module _ {r : Rec} {n : ℕ} where
  paren_atom-Acts : Good r n → (t : Token) → Acts still n (paren_atom r t)
  unfolding paren_atom is_token ty_eq discriminant
  paren_atom-Acts g t = search acts_rules depth 30 fits 3000

  comp_ifs-Acts : Good r n → Acts still n (comp_ifs r)
  unfolding comp_ifs is_token ty_eq discriminant
  comp_ifs-Acts g = search acts_rules depth 30 fits 3000

  comp_clauses-Acts : Good r n → Acts still n (comp_clauses r)
  unfolding comp_clauses is_token ty_eq discriminant
  comp_clauses-Acts g = search (acts_rules, comp_ifs-Acts) depth 30 fits 3000

  ruleset atom_rules =
      (acts_rules, comma_loop-Acts, strings-Acts, paren_atom-Acts, comp_clauses-Acts)

  list_comp-Acts : Good r n → (at : Position) (e : Expr) → Acts still n (list_comp r at e)
  unfolding list_comp is_token ty_eq discriminant
  list_comp-Acts g at e = search atom_rules depth 30 fits 3000

  list_elems-Acts : Good r n → (at : Position) (e : Expr) → Acts still n (list_elems r at e)
  unfolding list_elems is_token ty_eq discriminant
  list_elems-Acts g at e = search atom_rules depth 30 fits 3000

  list_atom-Acts : Good r n → (at : Position) → Acts still n (list_atom r at)
  unfolding list_atom is_token ty_eq discriminant
  list_atom-Acts g at = search (atom_rules, list_comp-Acts, list_elems-Acts) depth 30 fits 3000

  dict_unpack-Acts : Good r n → (at : Position) (t : Token) → Acts still n (dict_unpack r at t)
  unfolding dict_unpack is_token ty_eq discriminant
  dict_unpack-Acts g at t = search atom_rules depth 30 fits 3000

  dict_items-Acts : Good r n → (items : Items) → Acts still n (dict_items r items)
  unfolding dict_items is_token ty_eq discriminant
  dict_items-Acts g items = search atom_rules depth 30 fits 3000

  set_elems-Acts : Good r n → (at : Position) (e : Expr) → Acts still n (set_elems r at e)
  unfolding set_elems is_token ty_eq discriminant
  set_elems-Acts g at e = search atom_rules depth 30 fits 3000

  dict_or_set-Acts : Good r n → (at : Position) (e : Expr) → Acts still n (dict_or_set r at e)
  unfolding dict_or_set is_token ty_eq discriminant
  dict_or_set-Acts g at e =
      search (atom_rules, skip_comp-Acts, dict_items-Acts, set_elems-Acts) depth 30 fits 3000

  dict_set_atom-Acts : Good r n → (at : Position) → Acts still n (dict_set_atom r at)
  unfolding dict_set_atom is_token ty_eq discriminant
  dict_set_atom-Acts g at =
      search (atom_rules, dict_unpack-Acts, dict_or_set-Acts) depth 30 fits 3000

  pub parse_atom-Acts : Good r n → Acts onward (suc n) (parse_atom r)
  unfolding parse_atom is_token ty_eq discriminant
  parse_atom-Acts g =
      search (atom_rules, word_atom-Acts, no_atom-Acts, list_atom-Acts, dict_set_atom-Acts) depth 30
        fits 3000
