-- ===== src/Json/Numerals.antt =====
-- The texts of numbers that `write_to` of src/json.rs writes.
use fly_lang.Json.Number.{
  ℤ, pos, negsuc, magnitude, negated, cut_at, as_i64, nat_digits, show_nat, show_int, is_whole,
  show_num,
}
use fly_lang.Json.Read.{in_number}
use fly_lang.Json.{Chars, Numbers}
use fly_lang.Prelude.{
  ℕ, zero, suc, ◌+◌, ◌-◌, ◌/◌, ◌%◌, ◌^◌, ◌<◌, true, false, leb, within, ◌||◌, ◌==◌, if◌then◌else◌,
  if_rule, Bool-cases, [], ◌∷◌, some, ◌≡◌, ◌≢◌, inl, inr, refl, sym, ap, subst, ◌∙◌, arith,
}

abbrev pub AllIn : Chars → Type 0
AllIn [] = Unit
AllIn (c ∷ cs) = (in_number c ≡ true) × AllIn cs

-- A digit or a minus in front.
abbrev pub IsFront : Chars → Type 0
IsFront [] = ⊥
IsFront (c ∷ cs) = (c == b'-' || within b'0' b'9' c) ≡ true

-- The text of a number holds characters of numbers alone, with a digit or a minus in front, and is read as that
-- number.
pub record IsShown (f : Numbers) (n : ℕ) : Type 0 where
  pub reads : f.from_str (show_num f n) ≡ some n
  pub chars : AllIn (show_num f n)
  pub front : IsFront (show_num f n)

-- The integer that a whole number is.
abbrev pub int_of : ℕ → ℤ
int_of n = if leb (2 ^ 63) n then negated (magnitude n) else ℤ.pos (magnitude n)

-- A number that JSON keeps: a whole number is inside the bounds of an `i64` and no `-0.0`. The other fields are
-- what the standard library promises: its digits are read as a whole number, and any other finite number is read from
-- the text that `{}` writes, in the characters of numbers.
pub record IsKept (f : Numbers) (n : ℕ) : Type 0 where
  pub inside : is_whole n ≡ true → (magnitude n < 2 ^ 63) × (n ≢ 2 ^ 63)
  pub reads_int : is_whole n ≡ true → n ≢ 2 ^ 63 → f.from_str (show_int (int_of n)) ≡ some n
  pub reads_float : is_whole n ≡ false → f.from_str (f.display n) ≡ some n
  pub float_chars : is_whole n ≡ false → AllIn (f.display n) × IsFront (f.display n)

-- Digits, one at least.
abbrev IsNumeral : Chars → Type 0
IsNumeral s = AllIn s × IsFront s

digit_in : (d : ℕ) → d < 10 → in_number (b'0' + d) ≡ true
digit_in d h = ground arith

digit_front : (d : ℕ) → d < 10 → (b'0' + d == b'-' || within b'0' b'9' (b'0' + d)) ≡ true
digit_front d h = ground arith

below_ten : (n : ℕ) → n % 10 < 10
below_ten n = omega arith

nat_digits-IsNumeral : (k n : ℕ) (out : Chars) → IsNumeral out → IsNumeral (nat_digits k n out)
unfolding nat_digits
nat_digits-IsNumeral zero n out h = h
nat_digits-IsNumeral (suc k) n out h =
    if_rule IsNumeral (n == 0) (λ _. h)
      (λ _.
        nat_digits-IsNumeral k (n / 10) ((b'0' + n % 10) ∷ out)
          ((digit_in _ (below_ten n), h.0), digit_front _ (below_ten n)))

show_nat-IsNumeral : (n : ℕ) → IsNumeral (show_nat n)
unfolding show_nat nat_digits
show_nat-IsNumeral n = elim (Bool-cases (n == 0)) [
  | inl e ↦ rw e ((refl, tt), refl)
  | inr e ↦
      rw (e, nat_digits)
        (nat_digits-IsNumeral 19 (n / 10) ((b'0' + n % 10) ∷ [])
          ((digit_in _ (below_ten n), tt), digit_front _ (below_ten n)))
]

minus_in : in_number b'-' ≡ true
minus_in = refl

show_int-IsNumeral : (i : ℤ) → IsNumeral (show_int i)
unfolding show_int
show_int-IsNumeral (pos n) = show_nat-IsNumeral n
show_int-IsNumeral (negsuc k) = ((minus_in, (show_nat-IsNumeral (suc k)).0), refl)

cut_at-below : (top m : ℕ) → m < suc top → cut_at top m ≡ m
cut_at-below top m h = ground arith

-- Inside the bounds nothing is cut off.
as_i64-int_of : (n : ℕ) → magnitude n < 2 ^ 63 → as_i64 n ≡ int_of n
unfolding as_i64
as_i64-int_of n h =
    let low = cut_at-below (2 ^ 63) (magnitude n) (omega (arith, h)) in
    let high = cut_at-below (2 ^ 63 - 1) (magnitude n) (omega (arith, h)) in rw (low, high) refl

pub IsKept-IsShown : {f : Numbers} {n : ℕ} → IsKept f n → IsShown f n
unfolding show_num
IsKept-IsShown {f} {n} k = elim (Bool-cases (is_whole n)) [
  | inl e ↦
      let (small, no_zero) = k.inside e in
      let text : show_num f n ≡ show_int (int_of n) = rw e (ap show_int (as_i64-int_of n small)) in
      let numeral = show_int-IsNumeral (int_of n) in
      record {
        reads = ap f.from_str text ∙ k.reads_int e no_zero;
        chars = subst AllIn (sym text) numeral.0;
        front = subst IsFront (sym text) numeral.1;
      }
  | inr e ↦
      let text : show_num f n ≡ f.display n = rw e refl in
      record {
        reads = ap f.from_str text ∙ k.reads_float e;
        chars = subst AllIn (sym text) (k.float_chars e).0;
        front = subst IsFront (sym text) (k.float_chars e).1;
      }
]
