-- ===== src/Sandbox/Bpf.antt =====
-- fly-sandboxd/src/main.rs: the constants of the seccomp filter and `build_bpf`.
use fly_lang.Prelude.{ℕ, zero, suc, ◌+◌, ◌*◌, ◌%◌, ◌-◌, ◌^◌, List, [], ◌∷◌, ◌++◌, length}

abbrev pub arch_audit : ℕ
arch_audit = 0xC000003E

abbrev pub sys : List ℕ
sys =
    0 ∷ 1 ∷ 3 ∷ 5 ∷ 8 ∷ 9 ∷ 10 ∷ 11 ∷ 12 ∷ 13 ∷ 14 ∷ 15 ∷ 16 ∷ 17 ∷ 18 ∷ 19 ∷ 20 ∷ 21 ∷ 22 ∷ 25 ∷ 28
    ∷ 32 ∷ 33 ∷ 35 ∷ 39 ∷ 41 ∷ 57 ∷ 59 ∷ 60 ∷ 61 ∷ 62 ∷ 63 ∷ 72 ∷ 73 ∷ 74 ∷ 77 ∷ 78 ∷ 79 ∷ 80 ∷ 81
    ∷ 83 ∷ 84 ∷ 86 ∷ 87 ∷ 89 ∷ 90 ∷ 91 ∷ 92 ∷ 93 ∷ 94 ∷ 95 ∷ 96 ∷ 98 ∷ 99 ∷ 102 ∷ 104 ∷ 107 ∷ 108
    ∷ 110 ∷ 115 ∷ 116 ∷ 124 ∷ 131 ∷ 137 ∷ 138 ∷ 141 ∷ 158 ∷ 186 ∷ 202 ∷ 204 ∷ 217 ∷ 218 ∷ 219 ∷ 228
    ∷ 229 ∷ 230 ∷ 231 ∷ 232 ∷ 233 ∷ 234 ∷ 257 ∷ 258 ∷ 260 ∷ 261 ∷ 262 ∷ 263 ∷ 264 ∷ 265 ∷ 266 ∷ 267
    ∷ 268 ∷ 269 ∷ 280 ∷ 288 ∷ 290 ∷ 291 ∷ 292 ∷ 293 ∷ 295 ∷ 296 ∷ 297 ∷ 302 ∷ 318 ∷ 332 ∷ 334 ∷ 437
    ∷ []

abbrev pub bpf_ld_w_abs : ℕ
bpf_ld_w_abs = 0x20

abbrev pub bpf_jmp_ja : ℕ
bpf_jmp_ja = 0x05

abbrev pub bpf_jmp_jeq_k : ℕ
bpf_jmp_jeq_k = 0x15

abbrev pub bpf_alu_and_k : ℕ
bpf_alu_and_k = 0x54

abbrev pub bpf_ret_k : ℕ
bpf_ret_k = 0x06

abbrev pub ret_allow : ℕ
ret_allow = 0x7FFF0000

abbrev pub ret_errno : ℕ
ret_errno = 0x00050000

abbrev pub ret_kill_process : ℕ
ret_kill_process = 0x80000000

abbrev pub arch_off : ℕ
arch_off = 4

abbrev pub nr_off : ℕ
nr_off = 0

abbrev pub args0_off : ℕ
args0_off = 16

-- The bits of the mask and of `ret_errno | 1` do not meet, so `|` is a sum.
abbrev pub clone_new_mask : ℕ
clone_new_mask =
    0x00020000 + 0x02000000 + 0x04000000 + 0x08000000 + 0x10000000 + 0x20000000 + 0x40000000

abbrev pub ret_eperm : ℕ
ret_eperm = ret_errno + 1

abbrev pub sys_clone : ℕ
sys_clone = 56

pub record SockFilter : Type 0 where
  pub code : ℕ
  pub jt : ℕ
  pub jf : ℕ
  pub k : ℕ

abbrev pub filter : ℕ → ℕ → ℕ → ℕ → SockFilter
filter code jt jf k = record { code = code; jt = jt; jf = jf; k = k }

-- The loop over `SYS`.
abbrev pub whitelist : List ℕ → List SockFilter
whitelist [] = []
whitelist (nr ∷ nrs) = filter bpf_jmp_jeq_k 0 1 nr ∷ filter bpf_ret_k 0 0 ret_allow ∷ whitelist nrs

-- What is emitted behind the loop.
abbrev pub tail : List SockFilter
tail =
    filter bpf_jmp_jeq_k 0 1 sys_clone
    ∷ filter bpf_jmp_ja 0 0 1
    ∷ filter bpf_ret_k 0 0 ret_eperm
    ∷ filter bpf_ld_w_abs 0 0 args0_off
    ∷ filter bpf_alu_and_k 0 0 clone_new_mask
    ∷ filter bpf_jmp_jeq_k 0 1 0
    ∷ filter bpf_ret_k 0 0 ret_allow
    ∷ filter bpf_ret_k 0 0 ret_eperm
    ∷ filter bpf_ret_k 0 0 ret_kill_process
    ∷ []

-- `p[i].jf = v`
abbrev pub set_jf : ℕ → ℕ → List SockFilter → List SockFilter
set_jf i v [] = []
set_jf zero v (f ∷ p) = record f { jf = v } ∷ p
set_jf (suc i) v (f ∷ p) = f ∷ set_jf i v p

-- `build_bpf`, for the whitelist it reads from `SYS`.
unfoldable pub build_bpf : List ℕ → List SockFilter
build_bpf nrs =
    let p =
      filter bpf_ld_w_abs 0 0 arch_off
      ∷ filter bpf_jmp_jeq_k 0 0 arch_audit
      ∷ filter bpf_ld_w_abs 0 0 nr_off
      ∷ (whitelist nrs ++ tail) in
    let base = 3 + 2 * length nrs in set_jf 1 ((base + 8 - 2) % 2 ^ 8) p
