-- ===== src/Parser.antt =====
-- src/parser.rs: the recursive descent parser, over the lexer of src/lexer/lexer.rs.
pub mod Monad
pub mod Acts
pub mod Tokens
pub mod Loops
pub mod Rules
pub mod Shapes
pub mod Atoms
pub mod Postfix
pub mod Operators
pub mod Specs
pub mod Simple
pub mod Lines
pub mod Heads
pub mod Blocks
pub mod Module
pub mod Total
pub mod Stream
pub mod Visits
pub mod Whole
pub mod Limits
