-- ===== src/Parser/Total/Simple.antt =====
-- src/parser.rs: statements of one line return.
use fly_lang.Ast.{Expr, Stmt}
use fly_lang.Parser.Acts.{still, onward, Acts, Turns}
use fly_lang.Parser.Monad.{is_token, Go, more, stop}
use fly_lang.Parser.Rules.{acts_rules}
use fly_lang.Parser.Shapes.{Rec, one_of}
use fly_lang.Parser.Simple.{
  skip_semicolons, stmt_end, ended, is_aug_assign, need_target, Sides, chain_turn, assign_from,
  assignment, Line, line_turn, end_of_line, after_line, simple_stmt,
}
use fly_lang.Parser.Total.{Good}
use fly_lang.Parser.Total.Operators.{parse_test_list-Acts, parse_test_list-below}
use fly_lang.Prelude.{ℕ, suc}
use fly_lang.Token.{Token, ty_eq, discriminant}

pub skip_semicolons-Acts : {n : ℕ} → Acts still n skip_semicolons
unfolding skip_semicolons is_token one_of ty_eq discriminant
skip_semicolons-Acts = search acts_rules depth 40 fits 4000

pub stmt_end-Acts : {n : ℕ} → Acts still n stmt_end
unfolding stmt_end is_token one_of ty_eq discriminant
stmt_end-Acts = search (acts_rules, skip_semicolons-Acts) depth 40 fits 4000

pub ended-Acts : {n : ℕ} (s : Stmt) → Acts still n (ended s)
unfolding ended
ended-Acts s = search (acts_rules, stmt_end-Acts) depth 40 fits 4000

need_target-Acts : {n : ℕ} (e : Expr) → Acts still n (need_target e)
unfolding need_target
need_target-Acts e = search acts_rules depth 40 fits 4000

end_of_line-Acts : {n : ℕ} (l : Line) → Acts still n (end_of_line l)
unfolding end_of_line
end_of_line-Acts (Line.kept o) = search (acts_rules, stmt_end-Acts) depth 40 fits 4000
end_of_line-Acts Line.no_expr = search acts_rules depth 40 fits 4000

module _ {r : Rec} {n : ℕ} where
  ruleset line_rules =
      (acts_rules, parse_test_list-Acts, parse_test_list-below, need_target-Acts, end_of_line-Acts)

  chain_turn-Turns : Good r n → (s : Sides) → Turns n (chain_turn r s)
  unfolding chain_turn is_token one_of ty_eq discriminant
  chain_turn-Turns g s = search line_rules depth 40 fits 4000

  assign_from-Acts : Good r n → (e : Expr) (t : Token) → Acts still n (assign_from r e t)
  unfolding assign_from
  assign_from-Acts g e t = search (line_rules, chain_turn-Turns) depth 40 fits 4000

  assignment-Acts : Good r n → (e : Expr) → Acts still (suc n) (assignment r e)
  unfolding assignment is_aug_assign is_token one_of ty_eq discriminant
  assignment-Acts g e = search (line_rules, assign_from-Acts) depth 40 fits 4000

  line_turn-Turns : Good r n → (l : Line) → Turns (suc n) (line_turn r l)
  unfolding line_turn is_token one_of ty_eq discriminant
  line_turn-Turns g l = search (line_rules, assignment-Acts) depth 40 fits 4000

  line_turn-Acts : Good r n → (l : Line) → Acts onward (suc n) (line_turn r l)
  unfolding line_turn is_token one_of ty_eq discriminant
  line_turn-Acts g l = search (line_rules, assignment-Acts) depth 40 fits 4000

  after_line-Acts : Good r n → (g : Go Line) → Acts still (suc n) (after_line r g)
  unfolding after_line
  after_line-Acts g (more l) = search (line_rules, line_turn-Turns) depth 40 fits 4000
  after_line-Acts g (stop l) = search line_rules depth 40 fits 4000

  pub simple_stmt-Acts : Good r n → Acts onward (suc n) (simple_stmt r)
  unfolding simple_stmt
  simple_stmt-Acts g = search (line_rules, line_turn-Acts, after_line-Acts) depth 40 fits 4000
