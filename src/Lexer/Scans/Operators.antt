-- ===== src/Lexer/Scans/Operators.antt =====
-- `scan_op` of src/lexer/lexer.rs as a scanner.
use fly_lang.Lexer.Cursor.{Cursor, advance_by, peek}
use fly_lang.Lexer.Moves.{Moves, Moves-refl, Moves-weaken, Moves-advance_by, lt-length_peek}
use fly_lang.Lexer.Operators.{op_at, bracket, op_here, scan_op}
use fly_lang.Lexer.Scans.{
  Scans, slice-HasText, index-inside, is_layout, Keeps, Scans-move, Scans-error,
}
use fly_lang.Lexer.State.{Lexer, errorf}
use fly_lang.Prelude.{length, ℕ, ◌≤◌, ◌<◌, false, ◌≡◌, ◌≢◌, arith, inl, inr, Option-cases, some, []}
use fly_lang.Token.{TokenType}

-- An operator has one to three bytes, none of which is the 0 that stands for a byte past the end.
record Fits (c p₁ p₂ : ℕ) (ty : TokenType) (n : ℕ) : Type 0 where
  lexical : is_layout ty ≡ false
  some_byte : 0 < n
  at_most : n ≤ 3
  first : c ≢ 0
  second : 1 < n → p₁ ≢ 0
  third : 2 < n → p₂ ≢ 0

op_at-Fits :
    (c p₁ p₂ : ℕ) (ty : TokenType) (n : ℕ) → op_at c p₁ p₂ ≡ some (ty, n) → Fits c p₁ p₂ ty n
unfolding op_at
op_at-Fits c p₁ p₂ ty n h = ground arith

-- The whole operator stands in the source.
pub op_at-within :
    (c : Cursor) (ty : TokenType) (n : ℕ)
    → op_at (peek c 0) (peek c 1) (peek c 2) ≡ some (ty, n)
    → (n ≤ 3) × (n ≤ length c.rest)
op_at-within c ty n h =
    let f = op_at-Fits _ _ _ ty n h in
    (
      f.at_most,
      ground (
        arith,
        f.at_most,
        f.some_byte,
        lt-length_peek c 0 f.first,
        λ (k : 1 < n). lt-length_peek c 1 (f.second k),
        λ (k : 2 < n). lt-length_peek c 2 (f.third k),
      ),
    )

op_at-Moves :
    (c : Cursor) (ty : TokenType) (n : ℕ)
    → op_at (peek c 0) (peek c 1) (peek c 2) ≡ some (ty, n)
    → Moves 1 c (advance_by n c)
op_at-Moves c ty n h =
    Moves-weaken (op_at-Fits _ _ _ ty n h).some_byte
      (Moves-advance_by n c (op_at-within c ty n h).1)

-- A bracket changes the depth, and may record an error.
pub bracket-Keeps : (c : ℕ) (l : Lexer) → ((bracket c l).cur ≡ l.cur) × Keeps l (bracket c l)
unfolding bracket errorf
bracket-Keeps c l = ground arith

op_here-Scans : (l : Lexer) → Scans l (op_here l)
unfolding op_here
op_here-Scans l = elim (Option-cases (op_at (peek l.cur 0) (peek l.cur 1) (peek l.cur 2))) [
  | inl e ↦ rw (e, op_here) (Scans-error l [] l.cur _ _ (Moves-refl l.cur))
  | inr ((ty, n), e) ↦
      rw (e, op_here)
        (Scans-move l (bracket (peek l.cur 0) l) ty _ _ (op_at-Moves l.cur ty n e)
          (bracket-Keeps (peek l.cur 0) l).1 (op_at-Fits _ _ _ ty n e).lexical
          (slice-HasText l.cur _ ty))
]

-- Where a byte is left.
pub scan_op-Scans : (l : Lexer) → 0 < length l.cur.rest → Scans l (scan_op l)
unfolding scan_op
scan_op-Scans l h = rw (index-inside l h) (op_here-Scans l)
