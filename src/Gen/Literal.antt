-- ===== src/Gen/Literal.antt =====
-- The literals that `py_quote` of src/gen.rs writes, as Python reads them.
use fly_lang.Gen.Quote.{Chars, hex_digit, hex4, is_shown, quote_char, quote_chars, py_quote}
use fly_lang.Prelude.{
  ℕ, zero, suc, ◌+◌, ◌-◌, ◌*◌, ◌/◌, ◌%◌, ◌^◌, ◌<◌, true, false, ◌||◌, ltb, within, ◌==◌, ==→eq,
  ltb→lt, if◌then◌else◌, if_rule, length, [], ◌∷◌, ◌++◌, append_assoc, Option, none, some, ◌≡◌,
  refl, sym, ap, ◌∙◌, arith,
}

-- What one character behind a backslash stands for.
unfoldable pub simple_escape : ℕ → Option ℕ
simple_escape e =
    if e == b'"' || e == b'\\' || e == b'\''
    then some e
    else if e == b'a'
    then some 7
    else if e == b'b'
    then some 8
    else if e == b'f'
    then some 12
    else if e == b'n'
    then some b'\n'
    else if e == b'r'
    then some b'\r'
    else if e == b't'
    then some b'\t'
    else if e == b'v'
    then some 11
    else none

unfoldable pub digit_value : ℕ → Option ℕ
digit_value c =
    if within b'0' b'9' c
    then some (c - b'0')
    else if within b'a' b'f' c
    then some (c - b'a' + 10)
    else if within b'A' b'F' c
    then some (c - b'A' + 10)
    else none

abbrev pub shift_in : ℕ → Option ℕ → Option ℕ
shift_in n none = none
shift_in n (some d) = some (16 * n + d)

abbrev pub then_digit : Option ℕ → ℕ → Option ℕ
then_digit none c = none
then_digit (some n) c = shift_in n (digit_value c)

-- So many hexadecimal digits behind those of a number.
unfoldable pub hex_digits : ℕ → Option ℕ → Chars → Option (ℕ × Chars)
hex_digits zero none rest = none
hex_digits zero (some n) rest = some (n, rest)
hex_digits (suc k) n [] = none
hex_digits (suc k) n (c ∷ cs) = hex_digits k (then_digit n c) cs

abbrev pub with_rest : Option ℕ → Chars → Option (ℕ × Chars)
with_rest none rest = none
with_rest (some c) rest = some (c, rest)

unfoldable pub py_escape : Chars → Option (ℕ × Chars)
py_escape [] = none
py_escape (e ∷ cs) =
    if e == b'u'
    then hex_digits 4 (some 0) cs
    else if e == b'U'
    then hex_digits 8 (some 0) cs
    else with_rest (simple_escape e) cs

abbrev pub put_front : ℕ → Option (Chars × Chars) → Option (Chars × Chars)
put_front c none = none
put_front c (some (s, rest)) = some (c ∷ s, rest)

abbrev pub behind_escape :
    (Chars → Option (Chars × Chars)) → Option (ℕ × Chars) → Option (Chars × Chars)
behind_escape f none = none
behind_escape f (some (c, rest)) = put_front c (f rest)

-- A string literal of Python, behind its quote, of at most so many characters: its text and what stands behind it.
unfoldable pub py_string : ℕ → Chars → Option (Chars × Chars)
py_string zero s = none
py_string (suc n) [] = none
py_string (suc n) (c ∷ cs) = elim (c == b'"') [
  | true ↦ some ([], cs)
  | false ↦ elim (c == b'\\') [
    | true ↦ behind_escape (py_string n) (py_escape cs)
    | false ↦ elim (c == b'\n') [ true ↦ none | false ↦ put_front c (py_string n cs) ]
  ]
]

digit_value-hex_digit : (d : ℕ) → d < 16 → digit_value (hex_digit d) ≡ some d
unfolding digit_value
digit_value-hex_digit d h = ground arith

nibble : (n : ℕ) → n % 16 < 16
nibble n = omega arith

four_digits :
    (c : ℕ)
    → c < 2 ^ 16
    → 16 * (16 * (16 * (16 * 0 + c / 16 ^ 3 % 16) + c / 16 ^ 2 % 16) + c / 16 % 16) + c % 16 ≡ c
four_digits c h = omega (arith, h)

digit_step :
    (n c d : ℕ) (o : Option ℕ)
    → o ≡ some n
    → digit_value c ≡ some d
    → then_digit o c ≡ some (16 * n + d)
digit_step n c d o e i = ap (λ (x : Option ℕ). then_digit x c) e ∙ ap (shift_in n) i

-- The four digits of a number are read as that number.
hex_digits-hex4 :
    (c : ℕ) (rest : Chars) → c < 2 ^ 16 → hex_digits 4 (some 0) (hex4 c ++ rest) ≡ some (c, rest)
unfolding hex_digits
hex_digits-hex4 c rest h =
    let value = λ (d : ℕ). digit_value-hex_digit (d % 16) (nibble d) in
    let a =
      digit_step 0 (hex_digit (c / 16 ^ 3 % 16)) (c / 16 ^ 3 % 16) (some 0) refl
        (value (c / 16 ^ 3)) in
    let b = digit_step _ (hex_digit (c / 16 ^ 2 % 16)) (c / 16 ^ 2 % 16) _ a (value (c / 16 ^ 2)) in
    let d = digit_step _ (hex_digit (c / 16 % 16)) (c / 16 % 16) _ b (value (c / 16)) in
    let e = digit_step _ (hex_digit (c % 16)) (c % 16) _ d (value c) in
    ap (λ (o : Option ℕ). hex_digits 0 o rest) (e ∙ ap some (four_digits c h))

-- What is not written as it is has four digits.
not_shown : (c : ℕ) → is_shown c ≡ false → ltb c 0x10000 ≡ true
not_shown c h = ground arith

Reads : ℕ → ℕ → Chars → Chars → Type 0
Reads c n t w = py_string (suc n) (w ++ t) ≡ put_front c (py_string n t)

escaped :
    (d c n : ℕ) (t : Chars)
    → (c == d) ≡ true
    → put_front d (py_string n t) ≡ put_front c (py_string n t)
escaped d c n t e = ap (λ (x : ℕ). put_front x (py_string n t)) (sym (==→eq c d e))

plain_char :
    (c n : ℕ) (t : Chars)
    → (c == b'"') ≡ false
    → (c == b'\\') ≡ false
    → (c == b'\n') ≡ false
    → py_string (suc n) (c ∷ t) ≡ put_front c (py_string n t)
unfolding py_string
plain_char c n t e i j = rw (e, py_string) (rw i (rw j))

unicode_char :
    (c n : ℕ) (t : Chars)
    → c < 2 ^ 16
    → py_string (suc n) (b'\\' ∷ b'u' ∷ (hex4 c ++ t)) ≡ put_front c (py_string n t)
unfolding py_string py_escape
unicode_char c n t h = ap (behind_escape (py_string n)) (hex_digits-hex4 c t h)

-- What a character is written as is read as that character.
py_string-quote_char : (c n : ℕ) (t : Chars) → Reads c n t (quote_char c)
unfolding Reads py_string quote_char py_escape simple_escape
py_string-quote_char c n t =
    if_rule (Reads c n t) (c == b'"') (λ e. escaped b'"' c n t e)
      (λ quote.
        if_rule (Reads c n t) (c == b'\\') (λ e. escaped b'\\' c n t e)
          (λ slash.
            if_rule (Reads c n t) (c == 7) (λ e. escaped 7 c n t e)
              (λ _.
                if_rule (Reads c n t) (c == 8) (λ e. escaped 8 c n t e)
                  (λ _.
                    if_rule (Reads c n t) (c == 12) (λ e. escaped 12 c n t e)
                      (λ _.
                        if_rule (Reads c n t) (c == b'\n') (λ e. escaped b'\n' c n t e)
                          (λ line.
                            if_rule (Reads c n t) (c == b'\r') (λ e. escaped b'\r' c n t e)
                              (λ _.
                                if_rule (Reads c n t) (c == b'\t') (λ e. escaped b'\t' c n t e)
                                  (λ _.
                                    if_rule (Reads c n t) (c == 11) (λ e. escaped 11 c n t e)
                                      (λ _.
                                        if_rule (Reads c n t) (is_shown c)
                                          (λ _. plain_char c n t quote slash line)
                                          (λ hidden.
                                            let low = not_shown c hidden in
                                            if_rule (Reads c n t) (ltb c 0x10000)
                                              (λ e. unicode_char c n t (ltb→lt c 0x10000 e))
                                              (λ e. absurd cc)))))))))))

py_string-quote_chars :
    (s : Chars) (n : ℕ) (t : Chars)
    → length s < n
    → py_string n (quote_chars s ++ b'"' ∷ t) ≡ some (s, t)
unfolding quote_chars py_string Reads
py_string-quote_chars s zero t h = absurd (omega (arith, h))
py_string-quote_chars [] (suc n) t h = refl
py_string-quote_chars (c ∷ cs) (suc n) t h =
    ap (py_string (suc n)) (append_assoc (quote_char c) (quote_chars cs) (b'"' ∷ t))
    ∙ py_string-quote_char c n (quote_chars cs ++ b'"' ∷ t)
    ∙ ap (put_front c) (py_string-quote_chars cs n t (omega (arith, h)))

-- A literal of Python, from its quote on.
unfoldable pub py_literal : ℕ → Chars → Option (Chars × Chars)
py_literal n [] = none
py_literal n (c ∷ cs) = if c == b'"' then py_string n cs else none

-- Python reads what `py_quote` writes for a text as that text, and goes on with what stands behind it: no text ends
-- its literal early.
pub py_literal-py_quote :
    (s rest : Chars) → py_literal (suc (length s)) (py_quote s ++ rest) ≡ some (s, rest)
unfolding py_literal py_quote
py_literal-py_quote s rest =
    ap (py_string (suc (length s))) (append_assoc (quote_chars s) (b'"' ∷ []) rest)
    ∙ py_string-quote_chars s (suc (length s)) rest (omega arith)
