-- ===== src/Lexer/Scans/Numbers.antt =====
-- `scan_number` of src/lexer/lexer.rs as a scanner.
use fly_lang.Lexer.Cursor.{Cursor, advance, advance_while, peek, at_end, is_ident_part}
use fly_lang.Lexer.Moves.{
  Moves, Moves-refl, Moves-trans, Moves-weaken, Moves-advance, Moves-advance_while,
  Moves-advance_while_first, Moves-advance_while_stop, lt-length_peek, Moves-advance_twice,
}
use fly_lang.Lexer.Numbers.{
  is_digit, is_digit_part, is_hex_part, has_radix, digits, Number, exponent, fraction, decimal,
  number_at, finish_number, scan_number,
}
use fly_lang.Lexer.Scans.{Scans, slice-HasText, Scans-token, Scans-error}
use fly_lang.Token.{TokenType}
use fly_lang.Lexer.State.{Lexer}
use fly_lang.Prelude.{
  ℕ, ◌<◌, Bool, true, false, not, ◌&&◌, ◌||◌, ◌==◌, length, ◌≡◌, refl, arith, inl, inr, Bool-cases,
  Option-cases, if_rule, [],
}

digits-Moves : (c : Cursor) → Moves 0 c (digits c)
unfolding digits
digits-Moves c = Moves-advance_while is_digit_part c

fraction-Moves : (c : Cursor) → Moves 0 c (fraction c)
unfolding fraction
fraction-Moves c =
    if_rule (Moves 0 c) (peek c 0 == b'.')
      (λ t. Moves-weaken (omega arith) (
        Moves-trans (Moves-advance c (ground (arith, lt-length_peek c 0)))
          (digits-Moves (advance c))))
      (λ _. Moves-refl c)

exponent-Moves : (letter : ℕ) (c : Cursor) → Moves 0 c (exponent letter c).end
unfolding exponent
exponent-Moves letter c =
    Moves-trans
      (if_rule (Moves 0 c) (peek c 0 == b'+' || peek c 0 == b'-')
        (λ t. Moves-weaken (omega arith) (Moves-advance c (ground (arith, lt-length_peek c 0))))
        (λ _. Moves-refl c))
      (digits-Moves _)

-- Behind the whole part and the fraction.
decimal-Moves : (c : Cursor) → Moves 0 (fraction (digits c)) (decimal c).end
unfolding decimal
decimal-Moves c =
    let e = fraction (digits c) in
    if_rule (λ (n : Number). Moves 0 e n.end) (peek e 0 == b'e' || peek e 0 == b'E')
      (λ t. Moves-weaken (omega arith) (
        Moves-trans (Moves-advance e (ground (arith, lt-length_peek e 0)))
          (exponent-Moves (peek e 0) (advance e))))
      (λ _. Moves-refl e)

abbrev pub starts_number : ℕ → Bool
starts_number b = is_digit b || b == b'.'

whole-Moves : (c : Cursor) → starts_number (peek c 0) ≡ true → Moves 1 c (fraction (digits c))
unfolding is_digit
whole-Moves c h = elim (Bool-cases (is_digit (peek c 0))) [
  | inl d ↦
      let n = lt-length_peek c 0 (ground arith) in
      let part : is_digit_part (peek c 0) ≡ true = unfold is_digit_part in ground arith in
      let whole : Moves 1 c (digits c) =
        unfold digits in Moves-advance_while_first is_digit_part c n part in
      Moves-trans whole (fraction-Moves (digits c))
  | inr n ↦
      let dot : (peek c 0 == b'.') ≡ true = ground arith in
      let stays : is_digit_part (peek c 0) ≡ false = unfold is_digit_part in ground arith in
      let same : digits c ≡ c = unfold digits in Moves-advance_while_stop is_digit_part c stays in
      rw same (
        unfold fraction in
        rw dot (
          Moves-trans (Moves-advance c (lt-length_peek c 0 (ground arith)))
            (digits-Moves (advance c))))
]

number_at-Moves : (c : Cursor) → starts_number (peek c 0) ≡ true → Moves 1 c (number_at c).end
unfolding number_at
number_at-Moves c h =
    if_rule (λ (n : Number). Moves 1 c n.end) (has_radix c) (λ r. radix (unfold has_radix in r))
      (λ _. Moves-trans (whole-Moves c h) (decimal-Moves c))
  where
    radix :
        (peek c 0 == b'0'
            && (peek c 1 == b'x'
                || peek c 1 == b'X'
                || peek c 1 == b'o'
                || peek c 1 == b'O'
                || peek c 1 == b'b'
                || peek c 1 == b'B'))
          ≡ true
        → Moves 1 c (advance_while is_hex_part (advance (advance c)).rest (advance (advance c)))
    radix r =
        let n : 1 < length c.rest = lt-length_peek c 1 (ground arith) in
        Moves-trans (Moves-weaken {j = 1} (omega arith) (Moves-advance_twice c n))
          (Moves-advance_while is_hex_part (advance (advance c)))

finish_number-Scans : (l : Lexer) (n : Number) → Moves 1 l.cur n.end → Scans l (finish_number l n)
unfolding finish_number
finish_number-Scans l n m = elim (Option-cases n.missing) [
  | inr (letter, e) ↦
      rw (e, finish_number) (Scans-error l [] n.end _ _ (Moves-weaken (omega arith) m))
  | inl e ↦
      rw (e, finish_number)
        (if_rule (Scans l) (not (at_end n.end) && is_ident_part (peek n.end 0))
          (λ _. Scans-error l [] n.end _ _ (Moves-weaken (omega arith) m))
          (λ _.
            if_rule (Scans l) n.is_float
              (λ _.
                Scans-token l TokenType.float _ n.end m refl
                  (slice-HasText l.cur n.end TokenType.float))
              (λ _.
                Scans-token l TokenType.int _ n.end m refl
                  (slice-HasText l.cur n.end TokenType.int))))
]

pub scan_number-Scans : (l : Lexer) → starts_number (peek l.cur 0) ≡ true → Scans l (scan_number l)
unfolding scan_number
scan_number-Scans l h = finish_number-Scans l (number_at l.cur) (number_at-Moves l.cur h)
