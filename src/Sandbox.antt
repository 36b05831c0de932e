-- ===== src/Sandbox.antt =====
-- fly-sandboxd/src/main.rs: the seccomp filter of the sandbox.
pub mod Bpf
pub mod Machine
pub mod Verdict
