-- ===== src/Tests.antt =====
-- Concrete runs of the models, and an instance of each result.
mod Lexing
mod Filter
mod Inference
mod Words
mod Web
mod Parsing
mod Values
mod Output
mod Server
