-- ===== src/Analyze.antt =====
-- src/analyze.rs: the static measures of a program.
pub mod Visit
pub mod Walk
pub mod Points
pub mod Adds
pub mod Depth
pub mod Counts
