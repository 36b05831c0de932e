-- ===== src/Lsp.antt =====
-- src/lsp.rs: the helpers of the language server that read a URI and a line.
pub mod Uri
pub mod Lossy
pub mod Text
pub mod Paths
pub mod Token
pub mod Words
