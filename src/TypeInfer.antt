-- ===== src/TypeInfer.antt =====
-- src/typeinfer.rs: the inference of the types of variables and expressions, by which the generator
-- leaves out the guards of the run time.
pub mod Map
pub mod Types
pub mod Plain
pub mod Collect
pub mod Calls
pub mod Rounds
pub mod Falls
pub mod Unknown
pub mod Guards
