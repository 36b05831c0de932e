-- ===== src/Gen.antt =====
-- src/gen.rs: parts of the generator of Python, those that look at the tree and those that write literals.
pub mod Needs
pub mod Occurs
pub mod Found
pub mod Quote
pub mod Literal
