-- ===== src/Http/Chunks.antt =====
-- src/http.rs: the loop of `parse_http_response` over a chunked body.
use fly_lang.Prelude.{
  ℕ, zero, suc, ◌+◌, ◌-◌, ◌*◌, ◌^◌, true, false, ◌&&◌, ◌||◌, ◌==◌, ltb, within, if◌then◌else◌,
  Bytes, [], ◌∷◌, ◌++◌, length, take, drop, Option, none, some,
}

-- The place of the first `\r\n`.
unfoldable pub find_crlf : Bytes → Option ℕ
find_crlf [] = none
find_crlf (c ∷ []) = none
find_crlf (c ∷ d ∷ bs) =
    let rest = find_crlf (d ∷ bs) in
    if c == b'\r' && d == b'\n' then some 0 else elim rest [ none ↦ none | some i ↦ some (suc i) ]

abbrev nth : Bytes → ℕ → ℕ
nth [] i = 0
nth (b ∷ bs) zero = b
nth (b ∷ bs) (suc i) = nth bs i

-- The bytes of a character of white space, from its three bytes; 0 for any other.
unfoldable pub space_of : ℕ → ℕ → ℕ → ℕ
space_of a b c =
    if within 9 13 a || a == b' '
    then 1
    else if a == 0xC2 && (b == 0x85 || b == 0xA0)
    then 2
    else if (a == 0xE1 && b == 0x9A && c == 0x80)
        || (a == 0xE2 && b == 0x80 && (within 0x80 0x8A c || c == 0xA8 || c == 0xA9 || c == 0xAF))
        || (a == 0xE2 && b == 0x81 && c == 0x9F)
        || (a == 0xE3 && b == 0x80 && c == 0x80)
    then 3
    else 0

-- The white space at the front of the bytes.
abbrev space_ahead : Bytes → ℕ
space_ahead bs = space_of (nth bs 0) (nth bs 1) (nth bs 2)

-- The white space at the end of the bytes, which stand in reverse.
abbrev space_behind : Bytes → ℕ
space_behind bs =
    let one = space_of (nth bs 0) 0 0 in
    let two = space_of (nth bs 1) (nth bs 0) 0 in
    let three = space_of (nth bs 2) (nth bs 1) (nth bs 0) in
    if one == 1 then 1 else if two == 2 then 2 else if three == 3 then 3 else 0

-- Dropping `n` bytes, and then characters of white space.
unfoldable pub skip_space : (Bytes → ℕ) → ℕ → Bytes → Bytes
skip_space test n [] = []
skip_space test (suc n) (b ∷ bs) = skip_space test n bs
skip_space test zero (b ∷ bs) =
    let k = test (b ∷ bs) in
    let rest = skip_space test (k - 1) bs in if k == 0 then b ∷ bs else rest

abbrev reverse_on : Bytes → Bytes → Bytes
reverse_on out [] = out
reverse_on out (b ∷ bs) = reverse_on (b ∷ out) bs

-- `trim`
unfoldable pub trim : Bytes → Bytes
trim bs = reverse_on [] (skip_space space_behind 0 (reverse_on [] (skip_space space_ahead 0 bs)))

unfoldable pub hex_value : ℕ → Option ℕ
hex_value c =
    if within b'0' b'9' c
    then some (c - b'0')
    else if within b'a' b'f' c
    then some (c - b'a' + 10)
    else if within b'A' b'F' c
    then some (c - b'A' + 10)
    else none

-- More digits behind a number; one that a `usize` does not hold is an error.
unfoldable pub radix_on : ℕ → Bytes → Option ℕ
radix_on n [] = some n
radix_on n (c ∷ cs) = elim (hex_value c) [
  | none ↦ none
  | some d ↦ elim (ltb (16 * n + d) (2 ^ 64)) [ true ↦ radix_on (16 * n + d) cs | false ↦ none ]
]

-- `usize::from_str_radix(_, 16)`
unfoldable pub from_str_radix : Bytes → Option ℕ
from_str_radix [] = none
from_str_radix (c ∷ []) = radix_on 0 (c ∷ [])
from_str_radix (c ∷ d ∷ cs) = if c == b'+' then radix_on 0 (d ∷ cs) else radix_on 0 (c ∷ d ∷ cs)

unfoldable pub parse_size : Bytes → Option ℕ
parse_size line = from_str_radix (trim line)

pub data Body : Type 0 where
  ok : Bytes → Body
  incomplete_line : Body
  bad_size : Body
  incomplete_data : Body
  -- The slice behind the data starts past the end.
  panics : Body

-- What a turn of the loop does: it ends, or it goes on behind the chunk with more of the body.
pub data Turn : Type 0 where
  ends : Body → Turn
  goes_on : Bytes → Bytes → Turn

-- The part of a turn behind the size; `start` is `chunk_start`. Where `start + size` is more than a
-- `usize` holds, the range is empty in the release build, and its data is incomplete as well.
unfoldable pub chunk_of : Bytes → Bytes → ℕ → ℕ → Turn
chunk_of rest out start size =
    if size == 0
    then ends (ok out)
    else if ltb (length rest) (start + size)
    then ends incomplete_data
    else if ltb (length rest) (start + size + 2)
    then ends panics
    else goes_on (drop (start + size + 2) rest) (out ++ take size (drop start rest))

unfoldable pub sized_turn : Bytes → Bytes → ℕ → Option ℕ → Turn
sized_turn rest out line_end none = ends bad_size
sized_turn rest out line_end (some size) = chunk_of rest out (line_end + 2) size

unfoldable pub chunk_turn : Bytes → Bytes → Option ℕ → Turn
chunk_turn rest out none = ends incomplete_line
chunk_turn rest out (some line_end) = sized_turn rest out line_end (parse_size (take line_end rest))

abbrev pub after_turn : (Bytes → Bytes → Option Body) → Turn → Option Body
after_turn go (ends b) = some b
after_turn go (goes_on rest out) = go rest out

-- The loop, on fuel.
unfoldable pub chunk_loop : ℕ → Bytes → Bytes → Option Body
chunk_loop zero rest out = none
chunk_loop (suc fuel) rest out = after_turn (chunk_loop fuel) (chunk_turn rest out (find_crlf rest))

unfoldable pub chunked_body : Bytes → Option Body
chunked_body rest = chunk_loop (suc (length rest)) rest []
