-- ===== src/Checkd/Response.antt =====
-- src/checkd.rs: `parse_response`, `read_str` and the numbers of a frame. `body` and `off` are kept as
-- the bytes from `off` on.
use fly_lang.Diagnostic.{Diagnostic}
use fly_lang.Prelude.{
  ℕ, zero, suc, ◌+◌, ◌*◌, ◌/◌, ◌%◌, ◌^◌, Bool, true, false, ◌&&◌, ◌||◌, ◌==◌, ltb, within,
  if◌then◌else◌, Bytes, utf8, List, [], ◌∷◌, length, take, drop, Option, none, some,
}

abbrev nth : Bytes → ℕ → ℕ
nth [] i = 0
nth (b ∷ bs) zero = b
nth (b ∷ bs) (suc i) = nth bs i

-- `u32::from_be_bytes` of the four bytes at the front.
unfoldable pub be32 : Bytes → ℕ
be32 bs = nth bs 0 * 2 ^ 24 + nth bs 1 * 2 ^ 16 + nth bs 2 * 2 ^ 8 + nth bs 3

unfoldable pub le32 : Bytes → ℕ
le32 bs = nth bs 0 + nth bs 1 * 2 ^ 8 + nth bs 2 * 2 ^ 16 + nth bs 3 * 2 ^ 24

-- `to_be_bytes`, in front of the bytes behind the number.
unfoldable pub push_be32 : ℕ → Bytes → Bytes
push_be32 n rest = n / 2 ^ 24 % 2 ^ 8 ∷ n / 2 ^ 16 % 2 ^ 8 ∷ n / 2 ^ 8 % 2 ^ 8 ∷ n % 2 ^ 8 ∷ rest

abbrev is_tail : ℕ → Bool
is_tail b = within 0x80 0xBF b

-- The bytes of the character at the front, if they are the UTF-8 of one; 0 if they are not.
unfoldable pub char_len : ℕ → ℕ → ℕ → ℕ → ℕ
char_len a b c d =
    if ltb a 0x80
    then 1
    else if within 0xC2 0xDF a && is_tail b
    then 2
    else if ((a == 0xE0 && within 0xA0 0xBF b)
          || (a == 0xED && within 0x80 0x9F b)
          || (within 0xE1 0xEC a && is_tail b)
          || (within 0xEE 0xEF a && is_tail b))
        && is_tail c
    then 3
    else if ((a == 0xF0 && within 0x90 0xBF b)
          || (a == 0xF4 && within 0x80 0x8F b)
          || (within 0xF1 0xF3 a && is_tail b))
        && is_tail c
        && is_tail d
    then 4
    else 0

-- Whether the bytes are UTF-8, behind `n` more bytes of a character.
unfoldable pub is_utf8_on : ℕ → Bytes → Bool
is_utf8_on n [] = true
is_utf8_on (suc n) (b ∷ bs) = is_utf8_on n bs
is_utf8_on zero (b ∷ bs) = elim (char_len b (nth bs 0) (nth bs 1) (nth bs 2)) [
  | zero ↦ false
  | suc k ↦ is_utf8_on k bs
]

-- What stops a reading.
pub data Fault : Type 0 where
  empty : Fault
  status : ℕ → Fault
  length_cut : Fault
  text_cut : Fault
  fields_cut : Fault
  not_utf8 : Fault
  -- The slice of the count is past the end.
  panics : Fault

pub data Read (A : Type 0) : Type 0 where
  ok : A → Read A
  fails : Fault → Read A

unfoldable pub text_of : ℕ → Bytes → Read Bytes
text_of n rest =
    if ltb (length rest) n
    then fails Fault.text_cut
    else if is_utf8_on 0 (take n rest)
    then ok (take n rest)
    else fails Fault.not_utf8

unfoldable pub read_str : Bytes → Read Bytes
read_str rest =
    if ltb (length rest) 4 then fails Fault.length_cut else text_of (be32 rest) (drop 4 rest)

abbrev pub and_then : {A B : Type 0} → Read A → (A → Read B) → Read B
and_then (ok a) k = k a
and_then (fails e) k = fails e

-- The message behind the position, and the diagnostics behind it.
abbrev pub with_message : (Bytes → Read (List Diagnostic)) → Bytes → Bytes → Read (List Diagnostic)
with_message go code rest = and_then (read_str (drop 8 rest)) (λ (msg : Bytes).
    and_then (go (drop (4 + length msg) (drop 8 rest))) (λ (ds : List Diagnostic). ok (
      record { pos = record { line = le32 rest; col = le32 (drop 4 rest) }; code = code; msg = msg }
      ∷ ds)))

-- A turn of the loop, with the turns behind it.
unfoldable pub read_diag : (Bytes → Read (List Diagnostic)) → Bytes → Read (List Diagnostic)
read_diag go rest = and_then (read_str rest) (λ (code : Bytes).
    let fields = drop (4 + length code) rest in
    if ltb (length fields) 8 then fails Fault.fields_cut else with_message go code fields)

unfoldable pub read_diags : ℕ → Bytes → Read (List Diagnostic)
read_diags zero rest = ok []
read_diags (suc n) rest = read_diag (read_diags n) rest

pub record CheckdResult : Type 0 where
  pub diags : List Diagnostic
  pub server_error : Option Bytes

abbrev message_or : Bytes → Read Bytes → Bytes
message_or other (ok msg) = msg
message_or other (fails e) = other

unfoldable pub parse_response : Bytes → Read CheckdResult
parse_response [] = fails Fault.empty
parse_response (s ∷ rest) =
    if s == 1
    then ok (record {
      diags = [];
      server_error = some (message_or (utf8 "checkd 内部错误") (read_str rest));
    })
    else if s == 0
    then (if ltb (length rest) 4
        then fails Fault.panics
        else and_then (read_diags (be32 rest) (drop 4 rest))
            (λ (ds : List Diagnostic). ok (record { diags = ds; server_error = none })))
    else fails (Fault.status s)
