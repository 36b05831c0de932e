-- ===== src/Lexer/Positions.antt =====
-- The line and the column of a cursor are those of the bytes that it has passed, on 32 bits.
use fly_lang.Lexer.Cursor.{Cursor, start, wrap32, advance, advance_on, advance_by}
use fly_lang.Lexer.Moves.{rest-advance}
use fly_lang.Prelude.{
  ℕ, zero, suc, ◌+◌, ◌≤◌, ◌==◌, if◌then◌else◌, Bytes, count, length, take, drop, [], ◌∷◌, ◌≡◌, refl,
  sym, ap, subst, ◌∙◌, arith, Bool-cases, inl, inr,
}

-- The bytes since the last newline, where `k` stand on the line already.
abbrev pub since_newline : ℕ → Bytes → ℕ
since_newline k [] = k
since_newline k (b ∷ bs) = since_newline (if b == b'\n' then 0 else k + 1) bs

-- The line and the column of an offset, counted from 1.
abbrev pub line_at : Bytes → ℕ → ℕ
line_at src k = wrap32 (1 + count b'\n' (take k src))

abbrev pub col_at : Bytes → ℕ → ℕ
col_at src k = wrap32 (1 + since_newline 0 (take k src))

-- `c` stands behind `lines` newlines, and `k` bytes into its line.
record StandsAt (c : Cursor) (lines k : ℕ) : Type 0 where
  line_is : c.line ≡ wrap32 (1 + lines)
  col_is : c.col ≡ wrap32 (1 + k)

advance_on-StandsAt :
    (b : ℕ) (bs : Bytes) (c : Cursor) (lines k : ℕ)
    → StandsAt c lines k
    → StandsAt
        (advance_on (b ∷ bs) c)
        (if b == b'\n' then lines + 1 else lines)
        (if b == b'\n' then 0 else k + 1)
unfolding advance_on
advance_on-StandsAt b bs c lines k s = elim (Bool-cases (b == b'\n')) [
  | inl new ↦ rw new (record { line_is = omega (arith, s.line_is); col_is = refl })
  | inr same ↦ rw same (record { line_is = s.line_is; col_is = omega (arith, s.col_is) })
]

advance_by-StandsAt :
    (n : ℕ) (bs : Bytes) (c : Cursor) (lines k : ℕ)
    → bs ≡ c.rest
    → n ≤ length bs
    → StandsAt c lines k
    → StandsAt (advance_by n c) (lines + count b'\n' (take n bs)) (since_newline k (take n bs))
unfolding advance_by advance
advance_by-StandsAt zero bs c lines k e h s = record {
  line_is = omega (arith, s.line_is);
  col_is = s.col_is;
}
advance_by-StandsAt (suc n) [] c lines k e h s = absurd (omega arith)
advance_by-StandsAt (suc n) (b ∷ bs) c lines k e h s =
    let s' =
      subst
        (λ (r : Bytes).
          StandsAt (advance_on r c) (if b == b'\n' then lines + 1 else lines)
            (if b == b'\n' then 0 else k + 1))
        e (advance_on-StandsAt b bs c lines k s) in
    let rest =
      advance_by-StandsAt n bs (advance c) _ _ (sym (rest-advance c ∙ ap (drop 1) (sym e)))
        (omega arith) s' in
    record { line_is = rest.line_is ∙ ap wrap32 regroup; col_is = rest.col_is }
  where
    regroup :
        1 + ((if b == b'\n' then lines + 1 else lines) + count b'\n' (take n bs))
        ≡ 1 + (lines + count b'\n' (b ∷ take n bs))
    regroup = ground arith

pub advance_by_position :
    (src : Bytes) (n : ℕ)
    → n ≤ length src
    → ((advance_by n (start src)).line ≡ line_at src n)
      × ((advance_by n (start src)).col ≡ col_at src n)
unfolding start
advance_by_position src n h =
    let s =
      advance_by-StandsAt n src (start src) 0 0 refl h (record { line_is = refl; col_is = refl }) in
    (
      s.line_is
          ∙ ap wrap32 (
              let e : 1 + (0 + count b'\n' (take n src)) ≡ 1 + count b'\n' (take n src) =
                omega arith in
              e),
      s.col_is,
    )
