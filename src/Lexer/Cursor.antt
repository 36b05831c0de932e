-- ===== src/Lexer/Cursor.antt =====
-- src/lexer/lexer.rs: the place in the source, with `advance`, `peek` and the loops that advance.
-- The fields `src` and `off` are kept as `rest`, which is `src[off..]`, and the number `off`. A read
-- past the end panics in the program; here it sets `panicked`.
use fly_lang.Diagnostic.{Position}
use fly_lang.Prelude.{
  ℕ, zero, suc, ◌+◌, ◌-◌, ◌%◌, ◌^◌, Bool, true, false, not, ◌||◌, ◌==◌, within, if◌then◌else◌,
  Bytes, take, [], ◌∷◌,
}

pub record Cursor : Type 0 where
  pub rest : Bytes
  pub off : ℕ
  pub line : ℕ
  pub col : ℕ
  pub panicked : Bool

unfoldable pub start : Bytes → Cursor
start src = record { rest = src; off = 0; line = 1; col = 1; panicked = false }

-- `u32` arithmetic of the release build.
abbrev pub wrap32 : ℕ → ℕ
wrap32 n = n % 2 ^ 32

unfoldable pub advance_on : Bytes → Cursor → Cursor
advance_on [] c = record c { panicked = true }
advance_on (b ∷ bs) c =
    if b == b'\n'
    then record c { rest = bs; off = c.off + 1; line = wrap32 (c.line + 1); col = 1 }
    else record c { rest = bs; off = c.off + 1; col = wrap32 (c.col + 1) }

unfoldable pub advance : Cursor → Cursor
unfolding advance_on
advance c = advance_on c.rest c

-- `for _ in 0..n { self.advance(); }`
unfoldable pub advance_by : ℕ → Cursor → Cursor
advance_by zero c = c
advance_by (suc n) c = advance_by n (advance c)

-- The byte at an index, and 0 past the end.
unfoldable pub byte_at : Bytes → ℕ → ℕ
byte_at [] i = 0
byte_at (b ∷ bs) zero = b
byte_at (b ∷ bs) (suc i) = byte_at bs i

unfoldable pub peek : Cursor → ℕ → ℕ
unfolding byte_at
peek c i = byte_at c.rest i

-- `self.off >= self.src.len()`
unfoldable pub is_empty : Bytes → Bool
is_empty [] = true
is_empty (b ∷ bs) = false

unfoldable pub at_end : Cursor → Bool
unfolding is_empty
at_end c = is_empty c.rest

-- `self.src[from.off..to.off]`
unfoldable pub slice : Cursor → Cursor → Bytes
slice from to = take (to.off - from.off) from.rest

abbrev pub position : Cursor → Position
position c = record { line = c.line; col = c.col }

-- `while self.off < self.src.len() && test(self.src[self.off]) { self.advance(); }`
unfoldable pub advance_while : (ℕ → Bool) → Bytes → Cursor → Cursor
advance_while test [] c = c
advance_while test (b ∷ bs) c = elim (test b) [
  | true ↦ advance_while test bs (advance c)
  | false ↦ c
]

unfoldable pub skip_line : Cursor → Cursor
skip_line c = advance_while (λ b. not (b == b'\n')) c.rest c

unfoldable pub is_ident_start : ℕ → Bool
is_ident_start c = c == b'_' || within b'a' b'z' c || within b'A' b'Z' c

unfoldable pub is_ident_part : ℕ → Bool
unfolding is_ident_start
is_ident_part c = is_ident_start c || within b'0' b'9' c
