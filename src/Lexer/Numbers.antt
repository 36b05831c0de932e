-- ===== src/Lexer/Numbers.antt =====
-- src/lexer/lexer.rs: `scan_number`, with its radix, fraction and exponent.
use fly_lang.Lexer.Cursor.{
  Cursor, wrap32, advance, advance_while, peek, at_end, slice, position, is_ident_part,
}
use fly_lang.Lexer.State.{Lexer, token, illegal_at, errorf}
use fly_lang.Prelude.{
  ℕ, ◌-◌, Bool, true, false, not, ◌&&◌, ◌||◌, ◌==◌, within, if◌then◌else◌, utf8, [], ◌∷◌, Option,
  none, some, encode_char,
}
use fly_lang.Token.{TokenType, Token}

unfoldable pub is_digit : ℕ → Bool
is_digit c = within b'0' b'9' c

unfoldable pub is_digit_part : ℕ → Bool
unfolding is_digit
is_digit_part c = is_digit c || c == b'_'

unfoldable pub is_hex_part : ℕ → Bool
unfolding is_digit
is_hex_part c = is_digit c || within b'a' b'f' c || within b'A' b'F' c || c == b'_'

-- `0x`, `0o` or `0b`, in either case.
unfoldable pub has_radix : Cursor → Bool
has_radix c =
    let p₁ = peek c 1 in
    peek c 0 == b'0'
    && (p₁ == b'x' || p₁ == b'X' || p₁ == b'o' || p₁ == b'O' || p₁ == b'b' || p₁ == b'B')

unfoldable pub digits : Cursor → Cursor
digits c = advance_while is_digit_part c.rest c

-- Where a literal ends, whether it is a float, and the exponent's letter if its digits are missing.
pub record Number : Type 0 where
  pub end : Cursor
  pub is_float : Bool
  pub missing : Option ℕ

abbrev is_sign : ℕ → Bool
is_sign c = c == b'+' || c == b'-'

-- Behind the letter of the exponent. The counter `digits` is an `i32`.
unfoldable pub exponent : ℕ → Cursor → Number
unfolding digits
exponent letter c =
    let signed = if is_sign (peek c 0) then advance c else c in
    let e = digits signed in
    record {
      end = e;
      is_float = true;
      missing = if wrap32 (e.off - signed.off) == 0 then some letter else none;
    }

unfoldable pub fraction : Cursor → Cursor
unfolding digits
fraction c = if peek c 0 == b'.' then digits (advance c) else c

unfoldable pub decimal : Cursor → Number
unfolding digits fraction exponent
decimal c =
    let whole = digits c in
    let e = fraction whole in
    let is_float = peek whole 0 == b'.' in
    if peek e 0 == b'e' || peek e 0 == b'E'
    then exponent (peek e 0) (advance e)
    else record { end = e; is_float = is_float; missing = none }

unfoldable pub number_at : Cursor → Number
unfolding has_radix decimal
number_at c =
    if has_radix c
    then record {
      end = advance_while is_hex_part (advance (advance c)).rest (advance (advance c));
      is_float = false;
      missing = none;
    }
    else decimal c

unfoldable pub finish_number : Lexer → Number → Token × Lexer
finish_number l n =
    let l' = record l { cur = n.end } in
    let lit = slice l.cur n.end in
    elim n.missing [
      | some letter ↦ (
        illegal_at (position l.cur),
        errorf (position l.cur) (utf8 "指数部分缺少数字: %s") (encode_char letter ∷ []) l',
      )
      | none ↦
          if not (at_end n.end) && is_ident_part (peek n.end 0)
          then (
            illegal_at (position l.cur),
            errorf (position l.cur) (utf8 "非法数字字面量 %s") (lit ∷ []) l',
          )
          else if n.is_float
          then (token TokenType.float lit (position l.cur), l')
          else (token TokenType.int lit (position l.cur), l')
    ]

unfoldable pub scan_number : Lexer → Token × Lexer
unfolding finish_number
scan_number l = finish_number l (number_at l.cur)
