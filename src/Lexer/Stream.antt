-- ===== src/Lexer/Stream.antt =====
-- What `lex_all` of src/fmt.rs promises, over `next` of src/lexer/lexer.rs, for every source.
use fly_lang.Lexer.Cursor.{Cursor, start, advance_by}
use fly_lang.Lexer.Invariant.Whole.{IsStream, InOrder, Lexes, lex_all-Lexes}
use fly_lang.Lexer.Invariant.{ups_in, downs_in}
use fly_lang.Lexer.Moves.{Moves, rest-advance_by, advance_by-add, length-advance_by, panicked-Moves}
use fly_lang.Lexer.Next.{lex_all}
use fly_lang.Lexer.Positions.{line_at, col_at, advance_by_position}
use fly_lang.Lexer.Scans.{is_verbatim}
use fly_lang.Lexer.State.{Lexer, new}
use fly_lang.Prelude.{
  ℕ, ◌+◌, ◌≤◌, take, drop, sym, true, false, length, Bytes, List, [], ◌∷◌, ◌≡◌, inl, inr, refl, ap,
  subst, ◌∙◌, arith, none, some,
}
use fly_lang.Token.{Token}

-- Lexing any source returns a stream of tokens that has one `Eof`, at its end, and no read of the
-- lexer is past the end of the source or at an empty stack of indentations.
pub lex_all_total :
    (src : Bytes)
    → (r : List Token × Lexer) × (lex_all src ≡ some r) × IsStream r.0 × (r.1.cur.panicked ≡ false)
lex_all_total src =
    let (r, e, lexed) = lex_all-Lexes src in
    (r, e, lexed.stream, panicked-Moves lexed.moves ∙ (unfold new start in refl))

of_run :
    (src : Bytes) {ts : List Token} {l : Lexer} → lex_all src ≡ some (ts, l) → Lexes (new src) ts l
of_run src {ts} {l} e =
    let (r, e', lexed) = lex_all-Lexes src in
    let same : r ≡ (ts, l) = cc (e, e') in
    subst (λ (q : List Token × Lexer). Lexes (new src) q.0 q.1) same lexed

-- Where lexing ends with no error, the whole source has been read, and there are as many `Dedent`
-- tokens as `Indent` tokens.
pub lex_all_balanced :
    (src : Bytes) (ts : List Token) (l : Lexer)
    → lex_all src ≡ some (ts, l)
    → l.err ≡ none
    → (ups_in ts ≡ downs_in ts) × (l.cur.rest ≡ [])
unfolding new
lex_all_balanced src ts l e clear =
    let lexed = of_run src e in
    elim lexed.finished [
      | inl failed ↦ absurd (failed clear)
      | inr (one, empty, read) ↦
          (omega (arith, lexed.balance, ap length one, ap ups_in empty, ap downs_in empty), read)
    ]

-- The tokens stand at offsets of the source that do not fall, from `k` on, carry the line and the column of
-- those offsets, and have there the text that the source has, where their text is the source's.
abbrev pub ArePlaced : Bytes → ℕ → List Token → Type 0
ArePlaced src k [] = Unit
ArePlaced src k (t ∷ ts) =
    (j : ℕ) × (k ≤ j)
    × (j ≤ length src)
    × (t.line ≡ line_at src j)
    × (t.col ≡ col_at src j)
    × (is_verbatim t.ty ≡ true → take (length t.lit) (drop j src) ≡ t.lit)
    × ArePlaced src j ts

length-start : (src : Bytes) → length (start src).rest ≡ length src
unfolding start
length-start src = refl

rest_at : (src : Bytes) (j : ℕ) → (advance_by j (start src)).rest ≡ drop j src
unfolding start
rest_at src j = rest-advance_by j (start src)

-- A cursor reached from offset `k` stands at a later offset.
offset_of :
    (src : Bytes) (k : ℕ) (at : Cursor)
    → k ≤ length src
    → Moves 0 (advance_by k (start src)) at
    → (j : ℕ) × (k ≤ j) × (j ≤ length src) × (at ≡ advance_by j (start src))
offset_of src k at h m = (
  k + m.count,
  omega arith,
  omega (arith, h, m.fits, length-advance_by k (start src), length-start src),
  m.reaches ∙ advance_by-add k m.count (start src),
)

InOrder-ArePlaced :
    (src : Bytes) (k : ℕ) (ts : List Token)
    → k ≤ length src
    → InOrder (advance_by k (start src)) ts
    → ArePlaced src k ts
InOrder-ArePlaced src k [] h o = tt
InOrder-ArePlaced src k (t ∷ ts) h (at, m, line, col, text, rest) =
    let (j, later, fits, here) = offset_of src k at h m in
    let (is_line, is_col) = advance_by_position src j fits in
    (
      j,
      later,
      fits,
      line ∙ ap (λ (c : Cursor). c.line) here ∙ is_line,
      col ∙ ap (λ (c : Cursor). c.col) here ∙ is_col,
      λ v.
          ap (take (length t.lit)) (sym (rest_at src j) ∙ ap (λ (c : Cursor). c.rest) (sym here))
          ∙ text v,
      InOrder-ArePlaced src j ts fits (subst (λ (c : Cursor). InOrder c ts) here rest),
    )

-- Every token of a source carries the line and the column of an offset of the source, the text of a name, a
-- keyword, a number or an operator stands in the source at that offset, and the offsets do not fall from token to
-- token.
pub lex_all-ArePlaced :
    (src : Bytes) (ts : List Token) (l : Lexer) → lex_all src ≡ some (ts, l) → ArePlaced src 0 ts
unfolding new advance_by
lex_all-ArePlaced src ts l e = InOrder-ArePlaced src 0 ts (omega arith) (of_run src e).order
