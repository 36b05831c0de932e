-- ===== src/Lexer/Loop.antt =====
-- The loops of the lexer that are no plain walk over bytes: a turn goes on, returns, or is stuck where
-- an inner loop has run out of fuel. A run of the loop is `none` without enough fuel.
use fly_lang.Prelude.{ℕ, zero, suc, ◌<◌, ◌≡◌, refl, Option, none, some, arith}

pub data Turn (S R : Type 0) : Type 0 where
  again : S → Turn S R
  return : R → Turn S R
  stuck : Turn S R

unfoldable pub loop : {S R : Type 0} → (S → Turn S R) → ℕ → S → Option R
loop turn zero s = none
loop turn (suc fuel) s = elim (turn s) [
  | again s' ↦ loop turn fuel s'
  | return r ↦ some r
  | stuck ↦ none
]

-- What is left of a run when its first turn is known.
abbrev loop_on : {S R : Type 0} → (S → Turn S R) → ℕ → Turn S R → Option R
loop_on turn fuel t = elim t [ again s' ↦ loop turn fuel s' | return r ↦ some r | stuck ↦ none ]

-- What a turn from a state with measure `m` keeps, and what it returns.
abbrev pub Keeps : {S R : Type 0} → (S → Type 0) → (R → Type 0) → (S → ℕ) → ℕ → Turn S R → Type 0
Keeps P Q measure m (again s) = P s × (measure s < m)
Keeps P Q measure m (return r) = Q r
Keeps P Q measure m stuck = ⊥

module _ {S R : Type 0} (P : S → Type 0) (Q : R → Type 0) (measure : S → ℕ)
    (turn : S → Turn S R) where
  -- With fuel above the measure the loop returns, and what it returns is as it should be.
  pub loop_total :
      ((s : S) → P s → Keeps P Q measure (measure s) (turn s))
      → (fuel : ℕ) (s : S) → measure s < fuel
      → P s
      → (r : R) × (loop turn fuel s ≡ some r) × Q r
  unfolding loop
  loop_total keep zero s h p = absurd (omega arith)
  loop_total keep (suc fuel) s h p =
      go (turn s) (keep s p) (λ s' k. loop_total keep fuel s' (omega arith) k.0)
    where
      go :
          (t : Turn S R)
          → Keeps P Q measure (measure s) t
          → ((s' : S)
              → P s' × (measure s' < measure s)
              → (r : R) × (loop turn fuel s' ≡ some r) × Q r)
          → (r : R) × (loop_on turn fuel t ≡ some r) × Q r
      go (again s') k rec = rec s' k
      go (return r) q rec = (r, refl, q)
      go stuck k rec = absurd k
