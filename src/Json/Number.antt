-- ===== src/Json/Number.antt =====
-- src/json.rs: the arm of `write_to` for numbers. An `f64` is its 64 bits: a sign, 11 bits of exponent and 52 of
-- fraction.
use fly_lang.Json.{Numbers, Chars}
use fly_lang.Prelude.{
  ℕ, zero, suc, ◌+◌, ◌-◌, ◌*◌, ◌/◌, ◌%◌, ◌^◌, Bool, not, ◌&&◌, ltb, leb, ◌==◌, if◌then◌else◌, utf8,
  [], ◌∷◌,
}

pub data ℤ : Type 0 where
  pos : ℕ → ℤ
  -- The number below zero by one more.
  negsuc : ℕ → ℤ

abbrev pub biased_exponent : ℕ → ℕ
biased_exponent n = n / 2 ^ 52 % 2 ^ 11

-- `is_finite`
unfoldable pub is_finite : ℕ → Bool
is_finite n = not (biased_exponent n == 2047)

-- The absolute value of a finite number, times `2 ^ 1075`; one with no exponent is subnormal.
unfoldable pub scaled : ℕ → ℕ
scaled n =
    if biased_exponent n == 0 then n % 2 ^ 52 * 2 else (2 ^ 52 + n % 2 ^ 52) * 2 ^ biased_exponent n

-- `n.fract() == 0.0`, which an infinity and a NaN fail.
unfoldable pub fract_is_zero : ℕ → Bool
unfolding is_finite scaled
fract_is_zero n = is_finite n && scaled n % 2 ^ 1075 == 0

-- The absolute value without its fraction.
unfoldable pub magnitude : ℕ → ℕ
unfolding scaled
magnitude n = scaled n / 2 ^ 1075

abbrev pub negated : ℕ → ℤ
negated zero = ℤ.pos zero
negated (suc k) = ℤ.negsuc k

abbrev pub cut_at : ℕ → ℕ → ℕ
cut_at top m = if ltb top m then top else m

-- `n as i64` of a finite number, which stops at the bounds of an `i64`.
unfoldable pub as_i64 : ℕ → ℤ
unfolding magnitude
as_i64 n =
    if leb (2 ^ 63) n
    then negated (cut_at (2 ^ 63) (magnitude n))
    else ℤ.pos (cut_at (2 ^ 63 - 1) (magnitude n))

-- The digits of a number below `10 ^ k`, with none for zero, in front of others.
unfoldable pub nat_digits : ℕ → ℕ → Chars → Chars
nat_digits zero n out = out
nat_digits (suc k) n out =
    let rest = nat_digits k (n / 10) ((b'0' + n % 10) ∷ out) in if n == 0 then out else rest

-- `{}` of a number below `10 ^ 20`.
unfoldable pub show_nat : ℕ → Chars
unfolding nat_digits
show_nat n = if n == 0 then utf8 "0" else nat_digits 20 n []

-- `{}` of an `i64`
unfoldable pub show_int : ℤ → Chars
unfolding show_nat
show_int (ℤ.pos n) = show_nat n
show_int (ℤ.negsuc k) = b'-' ∷ show_nat (suc k)

-- The condition of the arm.
unfoldable pub is_whole : ℕ → Bool
unfolding fract_is_zero is_finite
is_whole n = fract_is_zero n && is_finite n

-- What `write_to` writes for a number.
unfoldable pub show_num : Numbers → ℕ → Chars
unfolding is_whole show_int as_i64
show_num f n = if is_whole n then show_int (as_i64 n) else f.display n
