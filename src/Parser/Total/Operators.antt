-- ===== src/Parser/Total/Operators.antt =====
-- src/parser.rs: operators and lists return.
use fly_lang.Ast.{Expr}
use fly_lang.Parser.Acts.{still, onward, lower-Acts, Acts, Turns}
use fly_lang.Parser.Monad.{P, is_token}
use fly_lang.Parser.Operators.{
  parse_power, parse_factor, parse_term, parse_arith, parse_shift, parse_bit_and, parse_bit_xor,
  parse_bit_or, is_comp_op, comp_op, Links, comp_turn, parse_comparison, parse_not_test,
  parse_and_test, parse_or_test, conditional, parse_test, item, item_list, parse_test_list,
  parse_expr_list,
}
use fly_lang.Parser.Rules.{acts_rules, bind_next}
use fly_lang.Parser.Shapes.{Rec, one_of, left_assoc}
use fly_lang.Parser.Tokens.{IsReal}
use fly_lang.Parser.Total.{Good}
use fly_lang.Parser.Total.Atoms.{comma_loop-Acts}
use fly_lang.Parser.Total.Postfix.{parse_atom_expr-Acts}
use fly_lang.Prelude.{ℕ, suc, Bool}
use fly_lang.Token.{TokenType, Token, ty_eq, discriminant}

left_assoc-Acts :
    {n : ℕ} {m : P Expr} (test : TokenType → Bool) (f : Token → Expr → Expr → Expr)
    → IsReal test
    → Acts onward n m
    → Acts onward n (left_assoc test f m)
unfolding left_assoc
left_assoc-Acts test f e a = search acts_rules depth 30 fits 3000

item-Acts : {n : ℕ} {m : P Expr} → Acts onward n m → Acts onward n (item m)
unfolding item is_token ty_eq discriminant
item-Acts a = search acts_rules depth 30 fits 3000

item_list-Acts :
    {n : ℕ} {m : P Expr} (test : TokenType → Bool)
    → Acts onward n m
    → Acts onward n (item_list test m)
unfolding item_list
item_list-Acts test a = search (acts_rules, bind_next, comma_loop-Acts) depth 30 fits 3000

comp_op-Acts : {n : ℕ} (t : TokenType) → Acts still n (comp_op t)
unfolding comp_op is_token ty_eq discriminant
comp_op-Acts TokenType.is = search acts_rules depth 30 fits 3000
comp_op-Acts TokenType.not_ = search acts_rules depth 30 fits 3000
comp_op-Acts _ = search acts_rules depth 30 fits 3000

comp_turn-Turns : {n : ℕ} {m : P Expr} (s : Links) → Acts onward n m → Turns n (comp_turn m s)
unfolding comp_turn is_comp_op one_of ty_eq discriminant
comp_turn-Turns s a = search (acts_rules, comp_op-Acts) depth 30 fits 3000

ruleset operator_rules = (acts_rules, left_assoc-Acts, item-Acts, item_list-Acts, comp_turn-Turns)

module _ {r : Rec} {n : ℕ} where
  parse_power-Acts : Good r n → Acts onward (suc n) (parse_power r)
  unfolding parse_power is_token ty_eq discriminant
  parse_power-Acts g = search (operator_rules, parse_atom_expr-Acts) depth 30 fits 3000

  pub parse_factor-Acts : Good r n → Acts onward (suc n) (parse_factor r)
  unfolding parse_factor one_of ty_eq discriminant
  parse_factor-Acts g = search (operator_rules, parse_power-Acts) depth 30 fits 3000

  parse_term-Acts : Good r n → Acts onward (suc n) (parse_term r)
  unfolding parse_term one_of ty_eq discriminant
  parse_term-Acts g = search (operator_rules, parse_factor-Acts) depth 30 fits 3000

  parse_arith-Acts : Good r n → Acts onward (suc n) (parse_arith r)
  unfolding parse_arith one_of ty_eq discriminant
  parse_arith-Acts g = search (operator_rules, parse_term-Acts) depth 30 fits 3000

  parse_shift-Acts : Good r n → Acts onward (suc n) (parse_shift r)
  unfolding parse_shift one_of ty_eq discriminant
  parse_shift-Acts g = search (operator_rules, parse_arith-Acts) depth 30 fits 3000

  parse_bit_and-Acts : Good r n → Acts onward (suc n) (parse_bit_and r)
  unfolding parse_bit_and is_token ty_eq discriminant
  parse_bit_and-Acts g = search (operator_rules, parse_shift-Acts) depth 30 fits 3000

  parse_bit_xor-Acts : Good r n → Acts onward (suc n) (parse_bit_xor r)
  unfolding parse_bit_xor is_token ty_eq discriminant
  parse_bit_xor-Acts g = search (operator_rules, parse_bit_and-Acts) depth 30 fits 3000

  pub parse_bit_or-Acts : Good r n → Acts onward (suc n) (parse_bit_or r)
  unfolding parse_bit_or is_token ty_eq discriminant
  parse_bit_or-Acts g = search (operator_rules, parse_bit_xor-Acts) depth 30 fits 3000

  parse_comparison-Acts : Good r n → Acts onward (suc n) (parse_comparison r)
  unfolding parse_comparison
  parse_comparison-Acts g = search (operator_rules, parse_bit_or-Acts) depth 30 fits 3000

  pub parse_not_test-Acts : Good r n → Acts onward (suc n) (parse_not_test r)
  unfolding parse_not_test is_token ty_eq discriminant
  parse_not_test-Acts g = search (operator_rules, parse_comparison-Acts) depth 30 fits 3000

  parse_and_test-Acts : Good r n → Acts onward (suc n) (parse_and_test r)
  unfolding parse_and_test is_token ty_eq discriminant
  parse_and_test-Acts g = search (operator_rules, parse_not_test-Acts) depth 30 fits 3000

  pub parse_or_test-Acts : Good r n → Acts onward (suc n) (parse_or_test r)
  unfolding parse_or_test is_token ty_eq discriminant
  parse_or_test-Acts g = search (operator_rules, parse_and_test-Acts) depth 30 fits 3000

  conditional-Acts : Good r n → (x : Expr) → Acts still n (conditional r x)
  unfolding conditional is_token ty_eq discriminant
  conditional-Acts g x =
      let below : Acts onward n (parse_or_test r) = lower-Acts (parse_or_test-Acts g) in
      search operator_rules depth 30 fits 3000

  pub parse_test-Acts : Good r n → Acts onward (suc n) (parse_test r)
  unfolding parse_test is_token ty_eq discriminant
  parse_test-Acts g =
      search (operator_rules, parse_or_test-Acts, conditional-Acts) depth 30 fits 3000

  pub parse_test_list-Acts : Good r n → Acts onward (suc n) (parse_test_list r)
  unfolding parse_test_list is_token ty_eq discriminant
  parse_test_list-Acts g = search (operator_rules, parse_test-Acts) depth 30 fits 3000

  pub parse_expr_list-Acts : Good r n → Acts onward (suc n) (parse_expr_list r)
  unfolding parse_expr_list is_token ty_eq discriminant
  parse_expr_list-Acts g = search (operator_rules, parse_bit_or-Acts) depth 30 fits 3000

  pub parse_test-below : Good r n → Acts onward n (parse_test r)
  parse_test-below g = lower-Acts (parse_test-Acts g)

  pub parse_test_list-below : Good r n → Acts onward n (parse_test_list r)
  parse_test_list-below g = lower-Acts (parse_test_list-Acts g)

  pub parse_expr_list-below : Good r n → Acts onward n (parse_expr_list r)
  parse_expr_list-below g = lower-Acts (parse_expr_list-Acts g)
