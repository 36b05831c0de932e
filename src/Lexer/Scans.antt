-- ===== src/Lexer/Scans.antt =====
-- Each scanner of src/lexer/lexer.rs advances over bytes that are there, gives its token the place
-- where it began (behind the prefix, for a string that has one), and leaves the layout alone. It takes
-- a byte at least or records an error.
pub mod Words
pub mod Numbers
pub mod Operators
pub mod LexToken
use fly_lang.Diagnostic.{Position}
use fly_lang.Lexer.Cursor.{
  Cursor, advance, advance_by, byte_at, advance_while, peek, at_end, position, slice,
  is_ident_start, is_ident_part,
}
use fly_lang.Lexer.Moves.{
  Moves, Moves-refl, Moves-trans, Moves-weaken, Moves-advance, Moves-advance_while,
  Moves-advance_while_first, lt-length_peek, length-Moves, rest-advance, length-advance_by,
  advance_by-add,
}
use fly_lang.Lexer.State.{Lexer, index, index_on, token, errorf}
use fly_lang.Lexer.Words.{
  scan_ident, Close, closed, unclosed, string_loop, is_triple, past_quotes, finish_string,
  scan_string, scan_string_prefix, lower, is_string_prefix, prefix_loop, prefix_index, is_seen,
}
use fly_lang.Prelude.{
  ℕ, zero, suc, ◌+◌, ◌-◌, ◌≤◌, ◌<◌, Bool, true, false, ◌&&◌, ◌||◌, ◌==◌, if◌then◌else◌, Bytes,
  length, map, List, [], ◌∷◌, ◌++◌, ◌≡◌, ◌≢◌, ◌⊎◌, refl, sym, ap, ◌∙◌, arith, inl, inr, Bool-cases,
  Option-cases, if_rule, drop, take, not, Option, none, some,
}
use fly_lang.Token.{TokenType, Token, keyword}

-- The types of the tokens that stand for layout and not for text.
abbrev pub is_layout : TokenType → Bool
is_layout TokenType.eof = true
is_layout TokenType.newline = true
is_layout TokenType.indent = true
is_layout TokenType.dedent = true
is_layout _ = false

-- The types of the tokens whose text is the source's: not those of layout, not the string literals, whose
-- prefix is put in lower case, and not what the lexer refuses.
abbrev pub is_verbatim : TokenType → Bool
is_verbatim TokenType.illegal = false
is_verbatim TokenType.string = false
is_verbatim ty = not (is_layout ty)

-- The text stands in the source at the cursor.
abbrev pub HasText : Cursor → TokenType → Bytes → Type 0
HasText c ty lit = is_verbatim ty ≡ true → take (length lit) c.rest ≡ lit

take-length_take : (n : ℕ) (bs : Bytes) → take (length (take n bs)) bs ≡ take n bs
take-length_take zero bs = refl
take-length_take (suc n) [] = refl
take-length_take (suc n) (b ∷ bs) = ap (◌∷◌ b) (take-length_take n bs)

pub slice-HasText : (c d : Cursor) (ty : TokenType) → HasText c ty (slice c d)
unfolding slice
slice-HasText c d ty h = take-length_take (d.off - c.off) c.rest

-- A read of a byte that is there leaves the lexer as it is.
index_on-inside : (bs : Bytes) (l : Lexer) → 0 < length bs → index_on bs l ≡ l
unfolding index_on
index_on-inside [] l h = absurd (omega (arith, h))
index_on-inside (b ∷ bs) l h = refl

pub index-inside : (l : Lexer) → 0 < length l.cur.rest → index l ≡ l
unfolding index
index-inside l h = index_on-inside l.cur.rest l h

-- All but the cursor, the depth and the error is as it was.
pub record Keeps (l l' : Lexer) : Type 0 where
  pub indents_same : l'.indents ≡ l.indents
  pub pending_same : l'.pending ≡ l.pending
  pub start_same : l'.at_line_start ≡ l.at_line_start
  pub line_tok_same : l'.line_tok ≡ l.line_tok

pub record Scans (l : Lexer) (r : Token × Lexer) : Type 0 where
  pub moves : Moves 0 l.cur r.1.cur
  pub progress : (length r.1.cur.rest < length l.cur.rest) ⊎ (r.1.err ≢ none)
  -- The place of the token.
  pub at : Cursor
  pub reached : Moves 0 l.cur at
  pub left : Moves 0 at r.1.cur
  pub only_prefix : (at ≡ l.cur) ⊎ (is_string_prefix l.cur ≡ true)
  pub lexical : is_layout r.0.ty ≡ false
  pub line_is : r.0.line ≡ at.line
  pub col_is : r.0.col ≡ at.col
  pub text : HasText at r.0.ty r.0.lit
  pub keeps : Keeps l r.1

pub errorf-Keeps :
    (p : Position) (f : Bytes) (args : List Bytes) (l : Lexer)
    → ((errorf p f args l).cur ≡ l.cur)
      × Keeps l (errorf p f args l)
      × ((errorf p f args l).err ≢ none)
      × ((errorf p f args l).depth ≡ l.depth)
unfolding errorf
errorf-Keeps p f args l = ground arith

pub Keeps-refl : (l : Lexer) → Keeps l l
Keeps-refl l = record {
  indents_same = refl;
  pending_same = refl;
  start_same = refl;
  line_tok_same = refl;
}

pub Scans-move :
    (l l' : Lexer) (ty : TokenType) (lit : Bytes) (c : Cursor)
    → Moves 1 l.cur c
    → Keeps l l'
    → is_layout ty ≡ false
    → HasText l.cur ty lit
    → Scans l (token ty lit (position l.cur), record l' { cur = c })
Scans-move l l' ty lit c m k x t = record {
  text = t;
  lexical = x;
  moves = Moves-weaken (omega arith) m;
  progress = inl (omega (arith, length-Moves m));
  at = l.cur;
  reached = Moves-refl l.cur;
  left = Moves-weaken (omega arith) m;
  only_prefix = inl refl;
  line_is = refl;
  col_is = refl;
  keeps = record {
    indents_same = k.indents_same;
    pending_same = k.pending_same;
    start_same = k.start_same;
    line_tok_same = k.line_tok_same;
  };
}

pub Scans-token :
    (l : Lexer) (ty : TokenType) (lit : Bytes) (c : Cursor)
    → Moves 1 l.cur c
    → is_layout ty ≡ false
    → HasText l.cur ty lit
    → Scans l (token ty lit (position l.cur), record l { cur = c })
Scans-token l ty lit c m x t = Scans-move l l ty lit c m (Keeps-refl l) x t

pub Scans-error :
    (l : Lexer) (lit : Bytes) (c : Cursor) (f : Bytes) (args : List Bytes)
    → Moves 0 l.cur c
    → Scans l (
      token TokenType.illegal lit (position l.cur),
      errorf (position l.cur) f args (record l { cur = c }),
    )
Scans-error l lit c f args m =
    let kept = errorf-Keeps (position l.cur) f args (record l { cur = c }) in
    record {
      moves = rw kept.0 m;
      text = λ h. cc;
      lexical = refl;
      progress = inr kept.2;
      at = l.cur;
      reached = Moves-refl l.cur;
      left = rw kept.0 m;
      only_prefix = inl refl;
      line_is = refl;
      col_is = refl;
      keeps = record {
        indents_same = kept.1.indents_same;
        pending_same = kept.1.pending_same;
        start_same = kept.1.start_same;
        line_tok_same = kept.1.line_tok_same;
      };
    }
