-- ===== src/Lexer/Invariant/Whole.antt =====
-- `lex_all` on any source: it returns, its stream ends in one `Eof`, and with no error every block that
-- is opened is closed.
use fly_lang.Diagnostic.{Diagnostic}
use fly_lang.Lexer.Cursor.{Cursor, start}
use fly_lang.Lexer.Invariant.Next.{next-Emits}
use fly_lang.Lexer.Invariant.{ups_in, downs_in, Balance, budget, budget_on, IsSound, Emits}
use fly_lang.Lexer.Moves.{Moves, Moves-trans}
use fly_lang.Lexer.Next.{lex_loop, lex_all, enough}
use fly_lang.Lexer.Scans.{HasText}
use fly_lang.Lexer.State.{Lexer, new}
use fly_lang.Prelude.{
  ℕ, zero, suc, ◌≤◌, ◌<◌, true, length, Bytes, List, [], ◌∷◌, ◌≡◌, ◌≢◌, ◌⊎◌, inl, inr, refl, arith,
  Bool-cases, Option, none, some,
}
use fly_lang.Token.{TokenType, Token, ty_eq, discriminant}

-- One `Eof`, at the end.
abbrev pub IsStream : List Token → Type 0
IsStream [] = ⊥
IsStream (t ∷ []) = t.ty ≡ TokenType.eof
IsStream (t ∷ u ∷ ts) = (t.ty ≢ TokenType.eof) × IsStream (u ∷ ts)

-- Each token stands at a cursor that is reached from the one of the token before it.
abbrev pub InOrder : Cursor → List Token → Type 0
InOrder c [] = Unit
InOrder c (t ∷ ts) =
    (at : Cursor) × Moves 0 c at
    × (t.line ≡ at.line)
    × (t.col ≡ at.col)
    × HasText at t.ty t.lit
    × InOrder at ts

InOrder-earlier : {c d : Cursor} (ts : List Token) → Moves 0 c d → InOrder d ts → InOrder c ts
InOrder-earlier [] m o = tt
InOrder-earlier (t ∷ ts) m (at, reached, line, col, text, rest) =
    (at, Moves-trans m reached, line, col, text, rest)

abbrev pub IsFinished : Lexer → Type 0
IsFinished l = (l.err ≢ none) ⊎ ((l.indents ≡ 0 ∷ []) × (l.pending ≡ []) × (l.cur.rest ≡ []))

pub record Lexes (l : Lexer) (ts : List Token) (l' : Lexer) : Type 0 where
  pub moves : Moves 0 l.cur l'.cur
  pub stream : IsStream ts
  pub order : InOrder l.cur ts
  pub balance : Balance l (ups_in ts) (downs_in ts) l'
  pub finished : IsFinished l'

pub ty_eq-eof : (ty : TokenType) → ty_eq ty TokenType.eof ≡ true → ty ≡ TokenType.eof
unfolding ty_eq discriminant
ty_eq-eof TokenType.eof h = refl
ty_eq-eof _ h = cc

pub eof-ty_eq : (ty : TokenType) → ty ≡ TokenType.eof → ty_eq ty TokenType.eof ≡ true
unfolding ty_eq discriminant
eof-ty_eq ty h = rw h

IsStream-cons :
    (t : Token) (ts : List Token) → t.ty ≢ TokenType.eof → IsStream ts → IsStream (t ∷ ts)
IsStream-cons t [] h s = absurd s
IsStream-cons t (u ∷ ts) h s = (h, s)

last-Lexes :
    {l : Lexer} {t : Token} {l' : Lexer} → Emits l t l' → t.ty ≡ TokenType.eof → Lexes l (t ∷ []) l'
last-Lexes e h = record {
  moves = e.moves;
  stream = h;
  order = (e.at, e.reached, e.line_is, e.col_is, e.text, tt);
  balance = omega (arith, e.balance);
  finished = e.finished h;
}

more-Lexes :
    {l m n : Lexer} {t : Token} {ts : List Token}
    → Emits l t m
    → t.ty ≢ TokenType.eof
    → Lexes m ts n
    → Lexes l (t ∷ ts) n
more-Lexes {t} {ts} e h s = record {
  moves = Moves-trans e.moves s.moves;
  stream = IsStream-cons t ts h s.stream;
  order = (e.at, e.reached, e.line_is, e.col_is, e.text, InOrder-earlier ts e.left s.order);
  balance = omega (arith, e.balance, s.balance);
  finished = s.finished;
}

budget_pos : (d : Option Diagnostic) (l : Lexer) → 0 < budget_on d l
budget_pos none l = omega arith
budget_pos (some e) l = omega arith

lex_loop-Lexes :
    (fuel : ℕ) (l : Lexer)
    → IsSound l
    → budget l ≤ fuel
    → (r : List Token × Lexer) × (lex_loop fuel l ≡ some r) × Lexes l r.0 r.1
unfolding lex_loop
lex_loop-Lexes zero l s h = absurd (omega (arith, budget_pos l.err l))
lex_loop-Lexes (suc fuel) l s h =
    let (q, e, em) = next-Emits l s in
    elim (Bool-cases (ty_eq q.0.ty TokenType.eof)) [
      | inl last ↦ ((q.0 ∷ [], q.1), rw (e, lex_loop) (rw last), last-Lexes em (ty_eq-eof _ last))
      | inr more ↦
          let not_eof : q.0.ty ≢ TokenType.eof = λ i. cc (eof-ty_eq q.0.ty i, more) in
          let enough_left : budget q.1 ≤ fuel = elim em.cost [
            | inl i ↦ absurd (not_eof i)
            | inr less ↦ omega (arith, less)
          ] in
          let (r, e', lexed) = lex_loop-Lexes fuel q.1 em.sound enough_left in
          ((q.0 ∷ r.0, r.1), rw (e, lex_loop) (rw more (rw e')), more-Lexes em not_eof lexed)
    ]

pub lex_all-Lexes :
    (src : Bytes) → (r : List Token × Lexer) × (lex_all src ≡ some r) × Lexes (new src) r.0 r.1
unfolding lex_all
lex_all-Lexes src =
    lex_loop-Lexes (enough (length src)) (new src)
      (unfold new in record { stack = refl; queue = tt }) (unfold new start in omega arith)
