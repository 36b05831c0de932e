-- ===== src/Lexer/State.antt =====
-- src/lexer/lexer.rs: the state of the lexer and its small operations. The stack of indentations
-- has its top first; `depth` is the bit pattern of an `i32`.
use fly_lang.Diagnostic.Format.{format_msg}
use fly_lang.Diagnostic.{Position, Diagnostic, error_code}
use fly_lang.Lexer.Cursor.{Cursor, start, position}
use fly_lang.Prelude.{
  ℕ, ◌+◌, ◌-◌, ◌%◌, ◌^◌, Bool, true, false, ltb, leb, ◌&&◌, Bytes, List, [], ◌∷◌, ◌++◌, Option,
  none, some,
}
use fly_lang.Token.{TokenType, Token}

pub record Lexer : Type 0 where
  pub cur : Cursor
  pub depth : ℕ
  pub indents : List ℕ
  pub at_line_start : Bool
  pub line_tok : Bool
  pub pending : List Token
  pub err : Option Diagnostic

-- `Lexer::new`
unfoldable pub new : Bytes → Lexer
new src = record {
  cur = start src;
  depth = 0;
  indents = 0 ∷ [];
  at_line_start = true;
  line_tok = false;
  pending = [];
  err = none;
}

abbrev pub token : TokenType → Bytes → Position → Token
token ty lit p = record { ty = ty; lit = lit; line = p.line; col = p.col }

-- A token with no text, at the place where the lexer stands.
abbrev pub bare : TokenType → Lexer → Token
bare ty l = token ty [] (position l.cur)

abbrev pub illegal_at : Position → Token
illegal_at p = token TokenType.illegal [] p

-- `self.src[self.off]`, which panics past the end; the byte itself is `peek l.cur 0`.
unfoldable pub index_on : Bytes → Lexer → Lexer
index_on [] l = record l { cur = record l.cur { panicked = true } }
index_on (b ∷ bs) l = l

unfoldable pub index : Lexer → Lexer
unfolding index_on
index l = index_on l.cur.rest l

-- The first error is kept.
unfoldable pub errorf : Position → Bytes → List Bytes → Lexer → Lexer
errorf p format args l = elim l.err [
  | none ↦ record l {
    err = some (record { pos = p; code = error_code format; msg = format_msg format args });
  }
  | some e ↦ l
]

unfoldable pub push_pending : TokenType → Lexer → Lexer
push_pending ty l = record l { pending = l.pending ++ bare ty l ∷ [] }

-- `depth += 1`, `depth -= 1`, `depth > 0` and `depth < 0` on 32 bits.
unfoldable pub inc32 : ℕ → ℕ
inc32 d = (d + 1) % 2 ^ 32

unfoldable pub dec32 : ℕ → ℕ
dec32 d = (d + 2 ^ 32 - 1) % 2 ^ 32

unfoldable pub is_pos32 : ℕ → Bool
is_pos32 d = ltb 0 d && ltb d (2 ^ 31)

unfoldable pub is_neg32 : ℕ → Bool
is_neg32 d = leb (2 ^ 31) d
