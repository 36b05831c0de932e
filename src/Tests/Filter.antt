-- ===== src/Tests/Filter.antt =====
-- Runs of the sandbox's filter, on a machine that skips instructions.
use fly_lang.Prelude.{
  ℕ, zero, suc, ◌+◌, ◌*◌, ◌/◌, ◌%◌, ◌==◌, if◌then◌else◌, List, [], ◌∷◌, drop, Option, none, some,
  ◌≡◌, refl, arith,
}
use fly_lang.Sandbox.Bpf.{
  SockFilter, sys, arch_audit, build_bpf, ret_allow, ret_eperm, ret_kill_process,
}
use fly_lang.Sandbox.Machine.{Kernel}
use fly_lang.Sandbox.Verdict.{policy, run-build_bpf}

-- The bits that two words of `n` bits share.
abbrev land_bits : ℕ → ℕ → ℕ → ℕ
land_bits zero a b = 0
land_bits (suc n) a b = (a % 2) * (b % 2) + 2 * land_bits n (a / 2) (b / 2)

-- Running after skipping `n` instructions.
abbrev skip : ℕ → List SockFilter → (ℕ → ℕ) → ℕ → Option ℕ
skip n [] d a = none
skip (suc n) (f ∷ p) d a = skip n p d a
skip zero (f ∷ p) d a =
    let load = skip zero p d (d f.k) in
    let jump = skip f.k p d a in
    let test = skip (if a == f.k then f.jt else f.jf) p d a in
    let mask = skip zero p d (land_bits 32 a f.k) in
    if f.code == 0x20
    then load
    else if f.code == 0x05
    then jump
    else if f.code == 0x15
    then test
    else if f.code == 0x54
    then mask
    else some f.k

skip-drop :
    (n : ℕ) (p : List SockFilter) (d : ℕ → ℕ) (a : ℕ) → skip n p d a ≡ skip zero (drop n p) d a
skip-drop zero [] d a = refl
skip-drop (suc n) [] d a = refl
skip-drop zero (f ∷ p) d a = refl
skip-drop (suc n) (f ∷ p) d a = skip-drop n p d a

abbrev machine : Kernel
machine = record {
  land = land_bits 32;
  run = skip zero;
  run_ld = λ jt jf k p d a. refl;
  run_ja = λ jt jf k p d a. skip-drop k p d a;
  run_jeq = λ jt jf k p d a. skip-drop _ p d a;
  run_and = λ jt jf k p d a. refl;
  run_ret = λ jt jf k p d a. refl;
}

-- `seccomp_data` of a call: its number, the architecture and the first argument.
abbrev call : ℕ → ℕ → ℕ → ℕ → ℕ
call nr arch arg i = if i == 0 then nr else if i == 4 then arch else arg

reads : policy machine.land sys (call 0 arch_audit 0) ≡ ret_allow
reads = refl

clones : policy machine.land sys (call 56 arch_audit 17) ≡ ret_allow
clones = refl

clones_namespace : policy machine.land sys (call 56 arch_audit 0x10000000) ≡ ret_eperm
clones_namespace = refl

opens : policy machine.land sys (call 2 arch_audit 0) ≡ ret_eperm
opens = refl

elsewhere : policy machine.land sys (call 0 0x40000003 0) ≡ ret_kill_process
elsewhere = refl

run-build_bpf_example :
    machine.run (build_bpf sys) (call 56 arch_audit 0x10000000) 0
    ≡ some (policy machine.land sys (call 56 arch_audit 0x10000000))
run-build_bpf_example = run-build_bpf machine (call 56 arch_audit 0x10000000) sys 0 (omega arith)

-- `socket` and `openat` are on the whitelist.
socket_allowed : policy machine.land sys (call 41 arch_audit 2) ≡ ret_allow
socket_allowed = refl

openat_allowed : policy machine.land sys (call 257 arch_audit 0) ≡ ret_allow
openat_allowed = refl
