-- ===== src/Parser/Total/Lines.antt =====
-- src/parser.rs: statements of one line that begin with a keyword return.
use fly_lang.Ast.{ImportItem}
use fly_lang.Diagnostic.{Position}
use fly_lang.Parser.Acts.{still, onward, Acts, Turns}
use fly_lang.Parser.Lines.{
  return_stmt, raise_stmt, del_stmt, need_name, lock_stmt, taint_decl_stmt, guard_conds,
  typed_guard, plain_guard, guard_stmt, dotted_name, as_name, import_turn, import_stmt,
  from_import_turn, from_module, from_import_stmt,
}
use fly_lang.Parser.Monad.{is_token}
use fly_lang.Parser.Rules.{acts_rules}
use fly_lang.Parser.Shapes.{Rec, one_of}
use fly_lang.Parser.Total.{Good}
use fly_lang.Parser.Total.Operators.{parse_test_list-below, parse_test-below}
use fly_lang.Parser.Total.Postfix.{unless-Acts, at_comma-Acts, at_comma-Turns}
use fly_lang.Parser.Total.Simple.{ended-Acts}
use fly_lang.Prelude.{ℕ, Bool, Bytes, List}
use fly_lang.Token.{Token, ty_eq, discriminant}

ruleset keyword_rules = (
  acts_rules, parse_test_list-below, parse_test-below, unless-Acts, at_comma-Acts, at_comma-Turns,
  ended-Acts,
)

module _ {n : ℕ} where
  need_name-Acts : (at : Position) (name : Bytes) → Acts still n (need_name at name)
  unfolding need_name
  need_name-Acts at name = search acts_rules depth 40 fits 4000

  pub taint_decl_stmt-Acts : (safe : Bool) (t : Token) → Acts still n (taint_decl_stmt safe t)
  unfolding taint_decl_stmt is_token one_of ty_eq discriminant
  taint_decl_stmt-Acts safe t = search keyword_rules depth 40 fits 4000

  dotted_name-Acts : Acts onward n dotted_name
  unfolding dotted_name is_token one_of ty_eq discriminant
  dotted_name-Acts = search keyword_rules depth 40 fits 4000

  pub as_name-Acts : Acts still n as_name
  unfolding as_name is_token one_of ty_eq discriminant
  as_name-Acts = search keyword_rules depth 40 fits 4000

  ruleset name_rules = (keyword_rules, dotted_name-Acts, as_name-Acts)

  import_turn-Turns : (items : List ImportItem) → Turns n (import_turn items)
  unfolding import_turn is_token one_of ty_eq discriminant
  import_turn-Turns items = search name_rules depth 40 fits 4000

  pub import_stmt-Acts : (t : Token) → Acts still n (import_stmt t)
  unfolding import_stmt is_token one_of ty_eq discriminant
  import_stmt-Acts t = search (name_rules, import_turn-Turns) depth 40 fits 4000

  from_import_turn-Turns : (items : List ImportItem) → Turns n (from_import_turn items)
  unfolding from_import_turn is_token one_of ty_eq discriminant
  from_import_turn-Turns items = search name_rules depth 40 fits 4000

  from_module-Acts : Acts still n from_module
  unfolding from_module is_token one_of ty_eq discriminant
  from_module-Acts = search name_rules depth 40 fits 4000

  pub from_import_stmt-Acts : (t : Token) → Acts still n (from_import_stmt t)
  unfolding from_import_stmt is_token one_of ty_eq discriminant
  from_import_stmt-Acts t =
      search (name_rules, from_import_turn-Turns, from_module-Acts) depth 40 fits 4000

module _ {r : Rec} {n : ℕ} where
  pub return_stmt-Acts : Good r n → (t : Token) → Acts still n (return_stmt r t)
  unfolding return_stmt is_token one_of ty_eq discriminant
  return_stmt-Acts g t = search keyword_rules depth 40 fits 4000

  pub raise_stmt-Acts : Good r n → (t : Token) → Acts still n (raise_stmt r t)
  unfolding raise_stmt is_token one_of ty_eq discriminant
  raise_stmt-Acts g t = search keyword_rules depth 40 fits 4000

  pub del_stmt-Acts : Good r n → (t : Token) → Acts still n (del_stmt r t)
  unfolding del_stmt is_token one_of ty_eq discriminant
  del_stmt-Acts g t = search keyword_rules depth 40 fits 4000

  pub lock_stmt-Acts : Good r n → (t : Token) → Acts still n (lock_stmt r t)
  unfolding lock_stmt is_token one_of ty_eq discriminant
  lock_stmt-Acts g t = search (keyword_rules, need_name-Acts) depth 40 fits 4000

  guard_conds-Acts : Good r n → Acts still n (guard_conds r)
  unfolding guard_conds is_token one_of ty_eq discriminant
  guard_conds-Acts g = search keyword_rules depth 40 fits 4000

  typed_guard-Acts : Good r n → (t : Token) → Acts still n (typed_guard r t)
  unfolding typed_guard is_token one_of ty_eq discriminant
  typed_guard-Acts g t = search (keyword_rules, guard_conds-Acts) depth 40 fits 4000

  plain_guard-Acts : Good r n → (t : Token) → Acts still n (plain_guard r t)
  unfolding plain_guard is_token one_of ty_eq discriminant
  plain_guard-Acts g t = search keyword_rules depth 40 fits 4000

  pub guard_stmt-Acts : Good r n → (t : Token) → Acts still n (guard_stmt r t)
  unfolding guard_stmt is_token one_of ty_eq discriminant
  guard_stmt-Acts g t =
      search (keyword_rules, typed_guard-Acts, plain_guard-Acts) depth 40 fits 4000
