-- ===== src/Parser/Specs.antt =====
-- src/parser.rs: the texts of limits, `unquote_str`, `parse_time_spec` and `parse_mem_spec`.
use fly_lang.Prelude.{
  ℕ, zero, suc, ◌+◌, ◌-◌, ◌*◌, ◌%◌, ◌^◌, Bool, ◌&&◌, ◌||◌, ◌==◌, ltb, within, if◌then◌else◌, Bytes,
  utf8, List, [], ◌∷◌, Option, none, some,
}
use fly_lang.Token.{select}

-- What the parser asks of `f64`, each number as its pattern: the number of a text of digits and dots, the
-- product, and `<= 0.0`.
pub record F64 : Type 0 where
  pub from_str : Bytes → Option ℕ
  pub mul : ℕ → ℕ → ℕ
  pub is_le_zero : ℕ → Bool

abbrev pub last_byte : ℕ → Bytes → ℕ
last_byte b [] = b
last_byte b (c ∷ cs) = last_byte c cs

-- The bytes but the last.
abbrev pub all_but_last : ℕ → Bytes → Bytes
all_but_last b [] = []
all_but_last b (c ∷ cs) = b ∷ all_but_last c cs

unfoldable pub unquote_str : Bytes → Bytes
unquote_str (q ∷ b ∷ bs) =
    if (q == b'"' || q == b'\'') && last_byte b bs == q then all_but_last b bs else q ∷ b ∷ bs
unquote_str s = s

-- The bytes in front that pass a test, and those behind.
unfoldable pub span : (ℕ → Bool) → Bytes → Bytes × Bytes
span test [] = ([], [])
span test (c ∷ cs) =
    let (front, back) = span test cs in if test c then (c ∷ front, back) else ([], c ∷ cs)

abbrev pub is_ascii_digit : ℕ → Bool
is_ascii_digit = within b'0' b'9'

-- The patterns of 1.0, 0.001, 60.0 and 3600.0.
abbrev pub time_units : List (Bytes × ℕ)
time_units =
    (utf8 "", 0x3FF0000000000000)
    ∷ (utf8 "s", 0x3FF0000000000000)
    ∷ (utf8 "ms", 0x3F50624DD2F1A9FC)
    ∷ (utf8 "m", 0x404E000000000000)
    ∷ (utf8 "h", 0x40AC200000000000)
    ∷ []

abbrev time_of : F64 → Option ℕ → Option ℕ → Option ℕ
time_of f none _ = none
time_of f (some num) none = none
time_of f (some num) (some mult) =
    let secs = f.mul num mult in if f.is_le_zero secs then none else some secs

unfoldable pub time_spec : F64 → Bytes → Bytes → Option ℕ
time_spec f [] back = none
time_spec f (c ∷ cs) back = time_of f (f.from_str (c ∷ cs)) (select time_units back)

unfoldable pub parse_time_spec : F64 → Bytes → Option ℕ
parse_time_spec f v =
    let (front, back) = span (λ c. is_ascii_digit c || c == b'.') v in time_spec f front back

-- The value of digits behind those of `n`.
unfoldable pub digits_value : ℕ → Bytes → ℕ
digits_value n [] = n
digits_value n (c ∷ cs) = digits_value (10 * n + (c - b'0')) cs

-- `parse::<i64>` on digits.
unfoldable pub i64_from_str : Bytes → Option ℕ
i64_from_str ds = if ltb (digits_value 0 ds) (2 ^ 63) then some (digits_value 0 ds) else none

abbrev pub mem_units : List (Bytes × ℕ)
mem_units =
    (utf8 "", 1)
    ∷ (utf8 "B", 1)
    ∷ (utf8 "KB", 2 ^ 10)
    ∷ (utf8 "KiB", 2 ^ 10)
    ∷ (utf8 "MB", 2 ^ 20)
    ∷ (utf8 "MiB", 2 ^ 20)
    ∷ (utf8 "GB", 2 ^ 30)
    ∷ (utf8 "GiB", 2 ^ 30)
    ∷ []

-- The product wraps, as it does where overflow is not checked.
abbrev pub mem_of : Option ℕ → Option ℕ → Option ℕ
mem_of none _ = none
mem_of (some zero) _ = none
mem_of (some (suc n)) none = none
mem_of (some (suc n)) (some mult) = some (suc n * mult % 2 ^ 64)

unfoldable pub mem_spec : Bytes → Bytes → Option ℕ
mem_spec [] back = none
mem_spec (c ∷ cs) back = mem_of (i64_from_str (c ∷ cs)) (select mem_units back)

-- The limit as the pattern of an `i64`.
unfoldable pub parse_mem_spec : Bytes → Option ℕ
parse_mem_spec v = let (front, back) = span is_ascii_digit v in mem_spec front back
