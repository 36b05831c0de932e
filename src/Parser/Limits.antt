-- ===== src/Parser/Limits.antt =====
-- The texts of limits of src/parser.rs: what `unquote_str` and `parse_mem_spec` read.
use fly_lang.Parser.Specs.{
  unquote_str, last_byte, all_but_last, span, is_ascii_digit, digits_value, i64_from_str, mem_units,
  mem_of, mem_spec, parse_mem_spec,
}
use fly_lang.Prelude.{
  utf8, if_result, ℕ, zero, suc, ◌+◌, ◌*◌, ◌%◌, ◌^◌, ◌<◌, true, false, ltb, if◌then◌else◌, Bytes,
  List, [], ◌∷◌, ◌++◌, Option, none, some, ◌≡◌, ◌⊎◌, inl, inr, refl, ap, ◌∙◌, arith, bytes_eq,
}
use fly_lang.Token.{select}

last_byte-append : (b q : ℕ) (bs : Bytes) → last_byte b (bs ++ q ∷ []) ≡ q
last_byte-append b q [] = refl
last_byte-append b q (c ∷ bs) = last_byte-append c q bs

all_but_last-append : (b q : ℕ) (bs : Bytes) → all_but_last b (bs ++ q ∷ []) ≡ b ∷ bs
all_but_last-append b q [] = refl
all_but_last-append b q (c ∷ bs) = ap (◌∷◌ b) (all_but_last-append c q bs)

-- A text in quotes, of one kind at both ends, is read without them, whatever bytes it holds.
pub unquote_str-quoted :
    (q : ℕ) (s : Bytes) → (q ≡ b'"') ⊎ (q ≡ b'\'') → unquote_str (q ∷ (s ++ q ∷ [])) ≡ s
unfolding unquote_str
unquote_str-quoted q [] h = ground arith
unquote_str-quoted q (b ∷ bs) h =
    ground (arith, last_byte-append b q bs, all_but_last-append b q bs)

-- Digits alone.
abbrev pub AreDigits : Bytes → Type 0
AreDigits [] = Unit
AreDigits (c ∷ cs) = (is_ascii_digit c ≡ true) × AreDigits cs

-- No digit in front.
abbrev pub IsUnit : Bytes → Type 0
IsUnit [] = Unit
IsUnit (c ∷ cs) = is_ascii_digit c ≡ false

span-digits :
    (ds unit : Bytes) → AreDigits ds → IsUnit unit → span is_ascii_digit (ds ++ unit) ≡ (ds, unit)
unfolding span
span-digits [] [] a u = refl
span-digits [] (c ∷ cs) a u = rw u
span-digits (d ∷ ds) unit (h, a) u = rw (h, span-digits ds unit a u)

abbrev pub ArePos : List (Bytes × ℕ) → Type 0
ArePos [] = Unit
ArePos ((k, v) ∷ arms) = (0 < v) × ArePos arms

select_pos :
    (arms : List (Bytes × ℕ)) (name : Bytes) (v : ℕ)
    → ArePos arms
    → select arms name ≡ some v
    → 0 < v
unfolding select
select_pos [] name v a h = cc
select_pos ((k, w) ∷ arms) name v (pos, a) h =
    elim (if_result (bytes_eq k name) (some w) (select arms name) h) [
      | inl e ↦ let same : w ≡ v = cc in omega (arith, same, pos)
      | inr e ↦ select_pos arms name v a e
    ]

units_pos : ArePos mem_units
units_pos = (
  omega arith,
  (
    omega arith,
    (omega arith, (omega arith, (omega arith, (omega arith, (omega arith, (omega arith, tt)))))),
  ),
)

product_fits : (n mult : ℕ) → 0 < mult → n * mult < 2 ^ 63 → n < 2 ^ 63
product_fits n zero p h = absurd (omega (arith, p))
product_fits n (suc k) p h =
    let more : n * suc k ≡ n + n * k = omega arith in omega (arith, more, h)

lt→ltb : (a b : ℕ) → a < b → ltb a b ≡ true
lt→ltb a b h = ground arith

mod_small : (n : ℕ) → n < 2 ^ 63 → n % 2 ^ 64 ≡ n
mod_small n h = omega (arith, h)

mem_of-product :
    (n mult : ℕ) (o : Option ℕ)
    → o ≡ some mult
    → 0 < n
    → 0 < mult
    → n * mult < 2 ^ 63
    → mem_of (if ltb n (2 ^ 63) then some n else none) o ≡ some (n * mult)
mem_of-product n mult none s pos p fits = cc
mem_of-product zero mult (some m) s pos p fits = absurd (omega (arith, pos))
mem_of-product (suc k) mult (some m) s pos p fits =
    let small = product_fits (suc k) mult p fits in
    let same : m ≡ mult = cc in
    let whole : suc k * mult % 2 ^ 64 ≡ suc k * mult = mod_small (suc k * mult) fits in
    rw (lt→ltb (suc k) (2 ^ 63) small, same) (ap some whole)

-- The units, each with the power of 1024 that it stands for, as the messages of the program name them.
pub data IsMemUnit : Bytes → ℕ → Type 0 where
  no_unit : IsMemUnit [] 0
  byte : IsMemUnit (utf8 "B") 0
  kb : IsMemUnit (utf8 "KB") 1
  kib : IsMemUnit (utf8 "KiB") 1
  mb : IsMemUnit (utf8 "MB") 2
  mib : IsMemUnit (utf8 "MiB") 2
  gb : IsMemUnit (utf8 "GB") 3
  gib : IsMemUnit (utf8 "GiB") 3

IsMemUnit-select :
    {unit : Bytes} {k : ℕ} → IsMemUnit unit k → select mem_units unit ≡ some (1024 ^ k)
unfolding select bytes_eq
IsMemUnit-select no_unit = refl
IsMemUnit-select byte = refl
IsMemUnit-select kb = refl
IsMemUnit-select kib = refl
IsMemUnit-select mb = refl
IsMemUnit-select mib = refl
IsMemUnit-select gb = refl
IsMemUnit-select gib = refl

IsMemUnit-IsUnit : {unit : Bytes} {k : ℕ} → IsMemUnit unit k → IsUnit unit
IsMemUnit-IsUnit no_unit = tt
IsMemUnit-IsUnit byte = refl
IsMemUnit-IsUnit kb = refl
IsMemUnit-IsUnit kib = refl
IsMemUnit-IsUnit mb = refl
IsMemUnit-IsUnit mib = refl
IsMemUnit-IsUnit gb = refl
IsMemUnit-IsUnit gib = refl

-- A number with one of the units, of 1 or of a power of 1024, is read as their product, where the number is not 0 and
-- an `i64` holds the product.
pub parse_mem_spec-product :
    (d : ℕ) (ds unit : Bytes) (k : ℕ)
    → AreDigits (d ∷ ds)
    → IsMemUnit unit k
    → 0 < digits_value 0 (d ∷ ds)
    → digits_value 0 (d ∷ ds) * 1024 ^ k < 2 ^ 63
    → parse_mem_spec (d ∷ (ds ++ unit)) ≡ some (digits_value 0 (d ∷ ds) * 1024 ^ k)
unfolding parse_mem_spec mem_spec i64_from_str
parse_mem_spec-product d ds unit k a u pos fits =
    let s = IsMemUnit-select u in
    ap (λ (r : Bytes × Bytes). mem_spec r.0 r.1) (span-digits (d ∷ ds) unit a (IsMemUnit-IsUnit u))
    ∙ mem_of-product (digits_value 0 (d ∷ ds)) (1024 ^ k) (select mem_units unit) s pos
        (select_pos mem_units unit (1024 ^ k) units_pos s) fits
