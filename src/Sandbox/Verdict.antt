-- ===== src/Sandbox/Verdict.antt =====
-- What the filter of fly-sandboxd/src/main.rs decides about each system call.
use fly_lang.Prelude.{
  ℕ, suc, ◌+◌, ◌%◌, ◌^◌, ◌-◌, ◌*◌, ◌≤◌, Bool, false, ◌||◌, ◌==◌, if◌then◌else◌, List, [], ◌∷◌, ◌++◌,
  drop, length, some, ◌≡◌, inl, inr, Bool-cases, refl, ◌∙◌, ap, arith,
}
use fly_lang.Sandbox.Bpf.{
  whitelist, tail, build_bpf, arch_audit, sys_clone, clone_new_mask, ret_allow, ret_eperm,
  ret_kill_process, arch_off, nr_off, args0_off,
}
use fly_lang.Sandbox.Machine.{Kernel}

abbrev pub is_listed : ℕ → List ℕ → Bool
is_listed nr [] = false
is_listed nr (x ∷ xs) = nr == x || is_listed nr xs

-- The policy: another architecture is killed; a listed call is allowed, and so is `clone` without a
-- flag for a new namespace; all else fails with `EPERM`.
abbrev pub policy : (ℕ → ℕ → ℕ) → List ℕ → (ℕ → ℕ) → ℕ
policy land nrs d =
    if d arch_off == arch_audit
    then (if is_listed (d nr_off) nrs
        then ret_allow
        else if d nr_off == sys_clone
        then (if land (d args0_off) clone_new_mask == 0 then ret_allow else ret_eperm)
        else ret_eperm)
    else ret_kill_process

abbrev clone_verdict : (ℕ → ℕ → ℕ) → (ℕ → ℕ) → ℕ → ℕ
clone_verdict land d nr =
    if nr == sys_clone
    then (if land (d args0_off) clone_new_mask == 0 then ret_allow else ret_eperm)
    else ret_eperm

drop-whitelist : (nrs : List ℕ) → drop (2 * length nrs + 8) (whitelist nrs ++ tail) ≡ drop 8 tail
drop-whitelist [] = refl
drop-whitelist (x ∷ nrs) =
    let longer : 2 * suc (length nrs) + 8 ≡ suc (suc (2 * length nrs + 8)) = omega arith in
    ap (λ (n : ℕ). drop n (whitelist (x ∷ nrs) ++ tail)) longer ∙ drop-whitelist nrs

module _ (kernel : Kernel) (d : ℕ → ℕ) where
  run_tail : (nr : ℕ) → kernel.run tail d nr ≡ some (clone_verdict kernel.land d nr)
  run_tail nr = elim (Bool-cases (nr == sys_clone)) [
    | inl h ↦ elim (Bool-cases (kernel.land (d args0_off) clone_new_mask == 0)) [
      | inl z ↦
          simp (kernel.run_jeq, kernel.run_ja, kernel.run_ld, kernel.run_and, kernel.run_ret, h, z)
      | inr z ↦
          simp (kernel.run_jeq, kernel.run_ja, kernel.run_ld, kernel.run_and, kernel.run_ret, h, z)
    ]
    | inr h ↦ simp (kernel.run_jeq, kernel.run_ret, h)
  ]

  run_whitelist :
      (nr : ℕ) (nrs : List ℕ)
      → kernel.run (whitelist nrs ++ tail) d nr
        ≡ some (if is_listed nr nrs then ret_allow else clone_verdict kernel.land d nr)
  run_whitelist nr [] = run_tail nr
  run_whitelist nr (x ∷ nrs) = elim (Bool-cases (nr == x)) [
    | inl h ↦ simp (kernel.run_jeq, kernel.run_ret, h)
    | inr h ↦ simp (kernel.run_jeq, h, run_whitelist nr nrs)
  ]

-- On every system call, the filter answers as the policy says, where the whitelist is short enough
-- for the jump to its end, which is a byte.
pub run-build_bpf :
    (kernel : Kernel) (d : ℕ → ℕ) (nrs : List ℕ) (a : ℕ)
    → length nrs ≤ 123
    → kernel.run (build_bpf nrs) d a ≡ some (policy kernel.land nrs d)
unfolding build_bpf
run-build_bpf kernel d nrs a h =
    let jump : (3 + 2 * length nrs + 8 - 2) % 2 ^ 8 ≡ suc (2 * length nrs + 8) = omega (arith, h) in
    elim (Bool-cases (d arch_off == arch_audit)) [
      | inl e ↦ simp (kernel.run_ld, kernel.run_jeq, e, run_whitelist kernel d (d nr_off) nrs)
      | inr e ↦ simp (kernel.run_ld, kernel.run_jeq, kernel.run_ret, jump, e, drop-whitelist nrs)
    ]
