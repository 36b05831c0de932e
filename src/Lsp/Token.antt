-- ===== src/Lsp/Token.antt =====
-- src/lsp.rs: `token_at`, the word of a line that a hover is about. The result is none where the code panics, on a
-- slice whose ends stand inside a character.
use fly_lang.Lsp.Uri.{is_continuation}
use fly_lang.Prelude.{
  ℕ, zero, suc, ◌-◌, Bool, true, false, not, ◌&&◌, ◌||◌, ltb, within, ◌==◌, if◌then◌else◌, Bytes,
  length, get_elem?, take, drop, [], Option, none, some,
}

unfoldable pub is_ident_char : ℕ → Bool
is_ident_char c = within b'a' b'z' c || within b'A' b'Z' c || within b'0' b'9' c || c == b'_'

-- `i < bytes.len() && is_ident_char(bytes[i])`
unfoldable pub ident_at : Bytes → ℕ → Bool
ident_at line i = elim (get_elem? line i) [ none ↦ false | some c ↦ is_ident_char c ]

-- `line.is_char_boundary(i)` of an index that is not past the end.
unfoldable pub boundary_at : Bytes → ℕ → Bool
boundary_at line i = elim (get_elem? line i) [ none ↦ true | some c ↦ not (is_continuation c) ]

-- The loop that takes `start` back.
unfoldable pub start_of : Bytes → ℕ → ℕ
start_of line zero = zero
start_of line (suc i) = let before = start_of line i in if ident_at line i then before else suc i

-- The loop that moves `end` on, for as many steps as its first argument.
unfoldable pub end_of : ℕ → Bytes → ℕ → ℕ
end_of zero line i = i
end_of (suc n) line i = let after = end_of n line (suc i) in if ident_at line i then after else i

-- `line[start..end]`
unfoldable pub cut : Bytes → ℕ → ℕ → Option Bytes
cut line start end =
    if boundary_at line start && boundary_at line end
    then some (take (end - start) (drop start line))
    else none

unfoldable pub token_at : Bytes → ℕ → Option Bytes
token_at line char =
    if ltb (length line) char
    then some []
    else cut line (start_of line char) (end_of (length line) line char)
