-- ===== src/Http.antt =====
-- src/http.rs: addresses, redirects and chunked bodies.
pub mod Redirect
pub mod Chunks
pub mod Places
pub mod Secure
pub mod Framing
