-- ===== src/Lexer/Munch.antt =====
-- `scan_op` of src/lexer/lexer.rs against the names of the operators in src/lexer/token.rs.
use fly_lang.Lexer.Cursor.{Cursor, advance_by, peek, byte_at, slice}
use fly_lang.Lexer.Moves.{off-advance_by}
use fly_lang.Lexer.Operators.{op_at, op_here, scan_op}
use fly_lang.Lexer.Scans.Operators.{op_at-within}
use fly_lang.Lexer.Scans.{index-inside}
use fly_lang.Lexer.State.{Lexer, index, index_on}
use fly_lang.Prelude.{
  none, inl, inr, ◌<◌, ◌⊎◌, sym, refl, subst, ap, ◌∙◌, ◌-◌, Bytes, zero, suc, Option-cases, Option,
  ℕ, ◌≤◌, [], ◌∷◌, take, length, some, ◌≡◌, ◌≢◌, arith,
}
use fly_lang.Token.{TokenType, symbol_name}

-- The operator `ty` stands at `c`, `p₁` and `p₂`.
abbrev pub StandsAt : TokenType → ℕ → ℕ → ℕ → Type 0
StandsAt ty c p₁ p₂ = take (length (symbol_name ty)) (c ∷ p₁ ∷ p₂ ∷ []) ≡ symbol_name ty

-- No operator that stands at the bytes is longer than the one that is scanned; `...` is scanned elsewhere.
pub op_at-longest :
    (ty : TokenType) (c p₁ p₂ : ℕ) (found : TokenType) (n : ℕ)
    → op_at c p₁ p₂ ≡ some (found, n)
    → ty ≢ TokenType.ellipsis
    → StandsAt ty c p₁ p₂
    → length (symbol_name ty) ≤ n
unfolding op_at symbol_name
op_at-longest TokenType.illegal c p₁ p₂ found n h e s = ground arith
op_at-longest ty c p₁ p₂ found n h e s = ground arith

-- What is scanned is spelled as its name.
abbrev IsSpelled : ℕ → ℕ → ℕ → Option (TokenType × ℕ) → Type 0
IsSpelled c p₁ p₂ none = Unit
IsSpelled c p₁ p₂ (some (ty, n)) = (n ≡ length (symbol_name ty)) × StandsAt ty c p₁ p₂

op_at-IsSpelled : (c p₁ p₂ : ℕ) → IsSpelled c p₁ p₂ (op_at c p₁ p₂)
unfolding op_at symbol_name
op_at-IsSpelled c p₁ p₂ = ground arith

take-peeks :
    (bs : Bytes) (n : ℕ)
    → n ≤ 3
    → n ≤ length bs
    → take n bs ≡ take n (byte_at bs 0 ∷ byte_at bs 1 ∷ byte_at bs 2 ∷ [])
unfolding byte_at
take-peeks bs zero h k = refl
take-peeks (a ∷ bs) (suc zero) h k = refl
take-peeks (a ∷ b ∷ bs) (suc (suc zero)) h k = refl
take-peeks (a ∷ b ∷ c ∷ bs) (suc (suc (suc zero))) h k = refl
take-peeks bs n h k = absurd (omega (arith, h, k))

slice_peeks :
    (c : Cursor) (n : ℕ)
    → n ≤ 3
    → n ≤ length c.rest
    → slice c (advance_by n c) ≡ take n (peek c 0 ∷ peek c 1 ∷ peek c 2 ∷ [])
unfolding slice peek
slice_peeks c n h k =
    let moved : (advance_by n c).off - c.off ≡ n = omega (arith, (off-advance_by n c k).0) in
    ap (λ (m : ℕ). take m c.rest) moved ∙ take-peeks c.rest n h k

found_at :
    (c p₁ p₂ : ℕ) (ty : TokenType) (n : ℕ)
    → op_at c p₁ p₂ ≡ some (ty, n)
    → (n ≡ length (symbol_name ty)) × StandsAt ty c p₁ p₂
found_at c p₁ p₂ ty n e =
    subst (λ (o : Option (TokenType × ℕ)). IsSpelled c p₁ p₂ o) e (op_at-IsSpelled c p₁ p₂)

op_here-symbol_name :
    (l : Lexer)
    → (op_here l).0.ty ≢ TokenType.illegal
    → ((op_here l).0.lit ≡ symbol_name (op_here l).0.ty)
      × ((op_here l).1.cur ≡ advance_by (length (symbol_name (op_here l).0.ty)) l.cur)
unfolding op_here
op_here-symbol_name l = elim (Option-cases (op_at (peek l.cur 0) (peek l.cur 1) (peek l.cur 2))) [
  | inl e ↦ rw (e, op_here) (λ (legal : TokenType.illegal ≢ TokenType.illegal). absurd (legal refl))
  | inr ((ty, n), e) ↦
      let spelled = found_at (peek l.cur 0) (peek l.cur 1) (peek l.cur 2) ty n e in
      let fits = op_at-within l.cur ty n e in
      rw (e, op_here)
        (λ (_ : ty ≢ TokenType.illegal). (
          slice_peeks l.cur n fits.0 fits.1
              ∙ ap (λ (k : ℕ). take k (peek l.cur 0 ∷ peek l.cur 1 ∷ peek l.cur 2 ∷ [])) spelled.0
              ∙ spelled.1,
          ap (λ (k : ℕ). advance_by k l.cur) spelled.0,
        ))
]

rest-cases : (bs : Bytes) → (bs ≡ []) ⊎ (0 < length bs)
rest-cases [] = inl refl
rest-cases (b ∷ bs) = inr (omega arith)

-- Past the end no operator is found.
empty-illegal : (l : Lexer) → l.cur.rest ≡ [] → (scan_op l).0.ty ≡ TokenType.illegal
unfolding scan_op op_here index index_on peek byte_at op_at
empty-illegal l e = rw (e, index_on) refl

-- An operator's token has the name of its type for its text, and the cursor moves behind that name.
pub scan_op-symbol_name :
    (l : Lexer)
    → (scan_op l).0.ty ≢ TokenType.illegal
    → ((scan_op l).0.lit ≡ symbol_name (scan_op l).0.ty)
      × ((scan_op l).1.cur ≡ advance_by (length (symbol_name (scan_op l).0.ty)) l.cur)
unfolding scan_op
scan_op-symbol_name l legal = elim (rest-cases l.cur.rest) [
  | inl empty ↦ absurd (legal (empty-illegal l empty))
  | inr there ↦
      subst
        (λ (m : Lexer).
          (op_here m).0.ty ≢ TokenType.illegal
          → ((op_here m).0.lit ≡ symbol_name (op_here m).0.ty)
            × ((op_here m).1.cur ≡ advance_by (length (symbol_name (op_here m).0.ty)) l.cur))
        (sym (index-inside l there)) (op_here-symbol_name l) legal
]
