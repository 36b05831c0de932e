-- ===== src/Sandbox/Machine.antt =====
-- The machine of the kernel that runs a classic BPF filter, which is not code of this repository:
-- what its documentation (bpf(4), seccomp(2)) says of the five instructions that `build_bpf` emits.
use fly_lang.Prelude.{ℕ, ◌==◌, if◌then◌else◌, List, ◌∷◌, drop, Option, some, ◌≡◌}
use fly_lang.Sandbox.Bpf.{
  SockFilter, filter, bpf_ld_w_abs, bpf_jmp_ja, bpf_jmp_jeq_k, bpf_alu_and_k, bpf_ret_k,
}

-- `run p d a` is the verdict of running `p` with the word `a` in the accumulator, where `d i` is the
-- word of `seccomp_data` at byte `i`. A jump counts from the next instruction.
pub record Kernel : Type 0 where
  pub land : ℕ → ℕ → ℕ
  pub run : List SockFilter → (ℕ → ℕ) → ℕ → Option ℕ
  pub run_ld :
      (jt jf k : ℕ) (p : List SockFilter) (d : ℕ → ℕ) (a : ℕ)
      → run (filter bpf_ld_w_abs jt jf k ∷ p) d a ≡ run p d (d k)
  pub run_ja :
      (jt jf k : ℕ) (p : List SockFilter) (d : ℕ → ℕ) (a : ℕ)
      → run (filter bpf_jmp_ja jt jf k ∷ p) d a ≡ run (drop k p) d a
  pub run_jeq :
      (jt jf k : ℕ) (p : List SockFilter) (d : ℕ → ℕ) (a : ℕ)
      → run (filter bpf_jmp_jeq_k jt jf k ∷ p) d a ≡ run (drop (if a == k then jt else jf) p) d a
  pub run_and :
      (jt jf k : ℕ) (p : List SockFilter) (d : ℕ → ℕ) (a : ℕ)
      → run (filter bpf_alu_and_k jt jf k ∷ p) d a ≡ run p d (land a k)
  pub run_ret :
      (jt jf k : ℕ) (p : List SockFilter) (d : ℕ → ℕ) (a : ℕ)
      → run (filter bpf_ret_k jt jf k ∷ p) d a ≡ some k
