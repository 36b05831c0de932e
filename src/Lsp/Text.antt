-- ===== src/Lsp/Text.antt =====
-- `from_utf8_lossy` leaves a text in UTF-8 as it is.
use fly_lang.Lsp.Lossy.{Lead, idle, lead, lossy_step, lossy_on, from_utf8_lossy}
use fly_lang.Prelude.{
  ℕ, Bool, ◌+◌, ◌/◌, ◌%◌, ◌<◌, ◌≤◌, true, ◌||◌, ltb, within, ◌==◌, Bool-cases, Bytes, encode_char,
  List, [], ◌∷◌, ◌++◌, ◌≡◌, inl, inr, refl, ap, ◌∙◌, arith,
}

-- The characters of Unicode, without the surrogates.
abbrev pub is_char : ℕ → Bool
is_char c = ltb c 0xD800 || within 0xE000 0x10FFFF c

abbrev pub AreChars : List ℕ → Type 0
AreChars [] = Unit
AreChars (c ∷ cs) = (is_char c ≡ true) × AreChars cs

-- A text of characters, as the bytes that a `String` holds.
abbrev pub text_of : List ℕ → Bytes
text_of [] = []
text_of (c ∷ cs) = encode_char c ++ text_of cs

one_byte : (a : ℕ) (s : Bytes) → lead a ≡ Lead.single → lossy_on idle (a ∷ s) ≡ a ∷ lossy_on idle s
unfolding lossy_on lossy_step
one_byte a s e = rw (e, lossy_on) refl

-- The bytes that may follow a lead byte.
record Follows (a b more : ℕ) : Type 0 where
  lo : ℕ
  hi : ℕ
  begins : lead a ≡ Lead.wait more lo hi
  fits : within lo hi b ≡ true

two_bytes :
    (a b : ℕ) (s : Bytes) → Follows a b 0 → lossy_on idle (a ∷ b ∷ s) ≡ a ∷ b ∷ lossy_on idle s
unfolding lossy_on lossy_step
two_bytes a b s f = rw (f.begins, lossy_on) (rw (f.fits, lossy_on) refl)

three_bytes :
    (a b c : ℕ) (s : Bytes)
    → Follows a b 1
    → within 0x80 0xBF c ≡ true
    → lossy_on idle (a ∷ b ∷ c ∷ s) ≡ a ∷ b ∷ c ∷ lossy_on idle s
unfolding lossy_on lossy_step
three_bytes a b c s f h = rw (f.begins, lossy_on) (rw (f.fits, lossy_on) (rw (h, lossy_on) refl))

four_bytes :
    (a b c d : ℕ) (s : Bytes)
    → Follows a b 2
    → within 0x80 0xBF c ≡ true
    → within 0x80 0xBF d ≡ true
    → lossy_on idle (a ∷ b ∷ c ∷ d ∷ s) ≡ a ∷ b ∷ c ∷ d ∷ lossy_on idle s
unfolding lossy_on lossy_step
four_bytes a b c d s f h i =
    rw (f.begins, lossy_on) (rw (f.fits, lossy_on) (rw (h, lossy_on) (rw (i, lossy_on) refl)))

tail_byte : (n : ℕ) → within 0x80 0xBF (0x80 + n % 64) ≡ true
tail_byte n = ground arith

two-Follows : (c : ℕ) → 0x80 ≤ c → c < 0x800 → Follows (0xC0 + c / 64) (0x80 + c % 64) 0
unfolding lead
two-Follows c h i = record { lo = 0x80; hi = 0xBF; begins = ground arith; fits = tail_byte c }

three-Follows :
    (c : ℕ)
    → 0x800 ≤ c
    → c < 0x10000
    → is_char c ≡ true
    → Follows (0xE0 + c / 4096) (0x80 + c / 64 % 64) 1
unfolding lead
three-Follows c h i s = elim (Bool-cases (c / 4096 == 0)) [
  | inl e ↦ record { lo = 0xA0; hi = 0xBF; begins = ground arith; fits = ground arith }
  | inr e ↦ elim (Bool-cases (c / 4096 == 13)) [
    | inl d ↦ record { lo = 0x80; hi = 0x9F; begins = ground arith; fits = ground arith }
    | inr d ↦ record { lo = 0x80; hi = 0xBF; begins = ground arith; fits = tail_byte (c / 64) }
  ]
]

four-Follows :
    (c : ℕ) → 0x10000 ≤ c → is_char c ≡ true → Follows (0xF0 + c / 262144) (0x80 + c / 4096 % 64) 2
unfolding lead
four-Follows c h s = elim (Bool-cases (c / 262144 == 0)) [
  | inl e ↦ record { lo = 0x90; hi = 0xBF; begins = ground arith; fits = ground arith }
  | inr e ↦ elim (Bool-cases (c / 262144 == 4)) [
    | inl d ↦ record { lo = 0x80; hi = 0x8F; begins = ground arith; fits = ground arith }
    | inr d ↦ record { lo = 0x80; hi = 0xBF; begins = ground arith; fits = tail_byte (c / 4096) }
  ]
]

lossy-encode_char :
    (c : ℕ) (s : Bytes)
    → is_char c ≡ true
    → lossy_on idle (encode_char c ++ s) ≡ encode_char c ++ lossy_on idle s
lossy-encode_char c s h = elim (Bool-cases (ltb c 0x80)) [
  | inl a ↦ rw a (one_byte c s (unfold lead in rw a refl))
  | inr a ↦ elim (Bool-cases (ltb c 0x800)) [
    | inl b ↦ rw (a, b) (two_bytes _ _ s (two-Follows c (ground arith) (ground arith)))
    | inr b ↦ elim (Bool-cases (ltb c 0x10000)) [
      | inl d ↦
          rw (a, b, d)
            (three_bytes _ _ _ s (three-Follows c (ground arith) (ground arith) h) (tail_byte c))
      | inr d ↦
          rw (a, b, d)
            (four_bytes _ _ _ _ s (four-Follows c (ground arith) h) (tail_byte (c / 64))
              (tail_byte c))
    ]
  ]
]

pub from_utf8_lossy-text_of :
    (cs : List ℕ) → AreChars cs → from_utf8_lossy (text_of cs) ≡ text_of cs
unfolding from_utf8_lossy lossy_on
from_utf8_lossy-text_of [] h = refl
from_utf8_lossy-text_of (c ∷ cs) (h, hs) =
    lossy-encode_char c (text_of cs) h
    ∙ ap (λ (s : Bytes). encode_char c ++ s) (from_utf8_lossy-text_of cs hs)
