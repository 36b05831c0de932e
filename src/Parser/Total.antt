-- ===== src/Parser/Total.antt =====
-- What is assumed of the calls by which the methods of src/parser.rs recur, to show that all of them return.
pub mod Atoms
pub mod Postfix
pub mod Operators
pub mod Simple
pub mod Lines
pub mod Heads
pub mod Blocks
pub mod Module
use fly_lang.Parser.Acts.{onward, Acts}
use fly_lang.Parser.Shapes.{Rec}
use fly_lang.Prelude.{ℕ}

-- From every state below `n` each call returns, and reads a token or reports an error.
pub record Good (r : Rec) (n : ℕ) : Type 0 where
  pub test : Acts onward n r.test
  pub test_list : Acts onward n r.test_list
  pub expr_list : Acts onward n r.expr_list
  pub or_test : Acts onward n r.or_test
  pub not_test : Acts onward n r.not_test
  pub factor : Acts onward n r.factor
  pub suite : Acts onward n r.suite
