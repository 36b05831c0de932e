-- ===== src/Lexer.antt =====
-- src/lexer/lexer.rs, one module for each group of its methods.
pub mod Cursor
pub mod State
pub mod Words
pub mod Numbers
pub mod Operators
pub mod Loop
pub mod Layout
pub mod Next
pub mod Moves
pub mod Positions
pub mod Scans
pub mod Invariant
pub mod Stream
pub mod Munch
