-- ===== src/Json/Strings.antt =====
-- Strings of src/json.rs: `string` reads back what `write_json_string` writes.
use fly_lang.Json.{Chars}
use fly_lang.Json.Read.{
  Outcome, got, and_then, hex_value, shifted, hex_on, unicode_value, utf8_len, byte_len, is_scalar,
  unicode, escape_of, escape, put, string,
}
use fly_lang.Json.Write.{hex_digit, hex4, write_char, write_chars}
use fly_lang.Prelude.{
  ℕ, zero, suc, ◌+◌, ◌*◌, ◌/◌, ◌%◌, ◌<◌, true, false, ltb, ◌==◌, ==→eq, ltb→lt, if_rule, length, [],
  ◌∷◌, ◌++◌, append_assoc, Option, some, ◌≡◌, refl, sym, ap, ◌∙◌, arith,
}

hex_value-hex_digit : (d : ℕ) → d < 16 → hex_value (hex_digit d) ≡ some d
unfolding hex_value
hex_value-hex_digit d h = ground arith

utf8_len-hex_digit : (d : ℕ) → d < 16 → utf8_len (hex_digit d) ≡ 1
utf8_len-hex_digit d h = ground arith

high_digit : (c : ℕ) → c < 32 → c / 16 < 16
high_digit c h = omega (arith, h)

low_digit : (c : ℕ) → c % 16 < 16
low_digit c = omega arith

is_scalar-control : (c : ℕ) → c < 32 → is_scalar c ≡ true
is_scalar-control c h = ground arith

two_digits : (c : ℕ) → c < 32 → 16 * (16 * (16 * 0 + 0) + c / 16) + c % 16 ≡ c
two_digits c h = omega arith

zero_value : hex_value b'0' ≡ some 0
unfolding hex_value
zero_value = refl

hex_step :
    (n c d : ℕ) (o : Option ℕ) → o ≡ some n → hex_value c ≡ some d → hex_on o c ≡ some (16 * n + d)
hex_step n c d o e i = ap (λ (x : Option ℕ). hex_on x c) e ∙ ap (shifted n) i

hex4_value : (c : ℕ) → c < 32 → unicode_value (hex4 c) ≡ some c
unfolding unicode_value
hex4_value c h =
    let high = hex_value-hex_digit (c / 16) (high_digit c h) in
    let low = hex_value-hex_digit (c % 16) (low_digit c) in
    let first = hex_step 0 b'0' 0 (hex_value b'0') zero_value zero_value in
    let second = hex_step (16 * 0 + 0) (hex_digit (c / 16)) (c / 16) _ first high in
    hex_step (16 * (16 * 0 + 0) + c / 16) (hex_digit (c % 16)) (c % 16) _ second low
    ∙ ap some (two_digits c h)

-- The escape of a control character is read as that character.
unicode-hex4 : (c : ℕ) (t : Chars) → c < 32 → unicode (hex4 c ++ t) ≡ got c t
unfolding unicode byte_len
unicode-hex4 c t h =
    let high = utf8_len-hex_digit (c / 16) (high_digit c h) in
    let low = utf8_len-hex_digit (c % 16) (low_digit c) in
    rw (high, low, hex4_value c h, is_scalar-control c h)

escaped :
    (d c n : ℕ) (t : Chars)
    → (c == d) ≡ true
    → and_then (string n t) (put d) ≡ and_then (string n t) (put c)
escaped d c n t e = ap (λ (x : ℕ). and_then (string n t) (put x)) (sym (==→eq c d e))

plain_char :
    (c n : ℕ) (t : Chars)
    → (c == b'"') ≡ false
    → (c == b'\\') ≡ false
    → string (suc n) (c ∷ t) ≡ and_then (string n t) (put c)
unfolding string
plain_char c n t e i = rw (e, string) (rw i)

control_char :
    (c n : ℕ) (t : Chars)
    → c < 32
    → string (suc n) (b'\\' ∷ b'u' ∷ (hex4 c ++ t)) ≡ and_then (string n t) (put c)
unfolding string escape escape_of and_then
control_char c n t h =
    ap (λ (o : Outcome ℕ). and_then o (λ x rest. and_then (string n rest) (put x)))
      (unicode-hex4 c t h)

-- What a character is written as is read as that character.
string-write_char :
    (c n : ℕ) (t : Chars) → string (suc n) (write_char c ++ t) ≡ and_then (string n t) (put c)
unfolding string write_char escape escape_of and_then
string-write_char c n t =
    let Reads : Chars → Type 0 = λ w. string (suc n) (w ++ t) ≡ and_then (string n t) (put c) in
    if_rule Reads (c == b'"') (λ e. escaped b'"' c n t e)
      (λ quote.
        if_rule Reads (c == b'\\') (λ e. escaped b'\\' c n t e)
          (λ slash.
            if_rule Reads (c == b'\n') (λ e. escaped b'\n' c n t e)
              (λ _.
                if_rule Reads (c == b'\r') (λ e. escaped b'\r' c n t e)
                  (λ _.
                    if_rule Reads (c == b'\t') (λ e. escaped b'\t' c n t e)
                      (λ _.
                        if_rule Reads (ltb c 0x20) (λ e. control_char c n t (ltb→lt c 0x20 e))
                          (λ _. plain_char c n t quote slash))))))

pub string-write_chars :
    (s : Chars) (n : ℕ) (t : Chars) → length s < n → string n (write_chars s ++ b'"' ∷ t) ≡ got s t
unfolding write_chars string and_then
string-write_chars s zero t h = absurd (omega (arith, h))
string-write_chars [] (suc n) t h = refl
string-write_chars (c ∷ cs) (suc n) t h =
    ap (string (suc n)) (append_assoc (write_char c) (write_chars cs) (b'"' ∷ t))
    ∙ string-write_char c n (write_chars cs ++ b'"' ∷ t)
    ∙ ap (λ (o : Outcome Chars). and_then o (put c)) (string-write_chars cs n t (omega (arith, h)))
