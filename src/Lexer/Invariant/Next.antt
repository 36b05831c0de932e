-- ===== src/Lexer/Invariant/Next.antt =====
-- `next` returns, within its fuel, a token with the invariant kept.
use fly_lang.Diagnostic.{Diagnostic}
use fly_lang.Lexer.Cursor.{Cursor, advance, peek, at_end, position}
use fly_lang.Lexer.Invariant.Line.{Within-move, skip_line-Moves, line_start-Started}
use fly_lang.Lexer.Invariant.Start.{
  Within, Within-refl, Within-trans, IsReady, Within-IsReady, budget_lt, budget_err, queue-Emits,
  Within-Emits, Started, close_blocks-Emits,
}
use fly_lang.Lexer.Invariant.{ups, downs, ups_in, downs_in, flag, IsSound, Emits}
use fly_lang.Lexer.Layout.{close_blocks, pop_pending}
use fly_lang.Lexer.Loop.{Turn, again, return, stuck, Keeps as TurnKeeps, loop, loop_total}
use fly_lang.Lexer.Moves.{
  Moves, Moves-refl, Moves-weaken, Moves-advance, Moves-advance_twice, lt-length_peek,
  lt-length_at_end, length-Moves,
}
use fly_lang.Lexer.Next.{
  lex_token, Result, end_of_input, end_of_line, mark_token, byte_in_line, in_line, after_start,
  next_turn, next_on, next_after, next,
}
use fly_lang.Lexer.Scans.LexToken.{lex_token-Scans}
use fly_lang.Lexer.Scans.{Scans, index-inside, is_layout, errorf-Keeps}
use fly_lang.Lexer.State.{Lexer, bare, is_pos32}
use fly_lang.Prelude.{
  suc, ◌≤◌, ◌<◌, Bool, true, false, not, ◌&&◌, ◌||◌, ◌==◌, if_rule, length, utf8, List, [], ◌∷◌,
  ◌≡◌, ◌≢◌, inl, inr, refl, ap, ◌∙◌, arith, Option, none, some,
}
use fly_lang.Token.{TokenType, Token, ty_eq}

abbrev pub EmitsOf : Lexer → Result → Type 0
EmitsOf l r = Emits l r.0 r.1

not_layout :
    (ty : TokenType) → is_layout ty ≡ false → (ups ty ≡ 0) × (downs ty ≡ 0) × (ty ≢ TokenType.eof)
not_layout TokenType.eof h = cc
not_layout TokenType.indent h = cc
not_layout TokenType.dedent h = cc
not_layout TokenType.newline h = cc
not_layout TokenType.illegal h = ground arith
not_layout _ h = ground arith

flag_le : (b : Bool) → flag b ≤ 1
flag_le true = omega arith
flag_le false = omega arith

-- A token of the text, whatever becomes of the flag.
scanned-Emits :
    (l : Lexer) (r : Result) (b : Bool)
    → IsReady l
    → Scans l r
    → Emits l r.0 (record r.1 { line_tok = b })
scanned-Emits l r b ready sc =
    let (no_up, no_down, not_eof) = not_layout r.0.ty sc.lexical in
    let i = sc.keeps.indents_same in
    let p = sc.keeps.pending_same in
    record {
      moves = sc.moves;
      at = sc.at;
      reached = sc.reached;
      left = sc.left;
      text = sc.text;
      line_is = sc.line_is;
      col_is = sc.col_is;
      sound = record { stack = rw i ready.stack; queue = rw (p, ready.empty) tt };
      cost = inr (elim sc.progress [
        | inl less ↦
            budget_lt l _ ready.clear ready.stack
              (omega (arith, less, ap length i, ap length p, flag_le b))
        | inr failed ↦ budget_err l _ ready.clear ready.stack failed
      ]);
      balance = omega (arith, no_up, no_down, ap length i, ap ups_in p, ap downs_in p);
      finished = λ e. absurd (not_eof e);
    }

mark_token-Emits :
    (l : Lexer) → IsReady l → 0 < length l.cur.rest → EmitsOf l (mark_token (lex_token l))
mark_token-Emits l ready h =
    let sc = lex_token-Scans l h in
    if_rule (EmitsOf l) (not (ty_eq (lex_token l).0.ty TokenType.illegal))
      (λ _. scanned-Emits l (lex_token l) true ready sc)
      (λ _. scanned-Emits l (lex_token l) (lex_token l).1.line_tok ready sc)

-- A `Newline` clears the flag, at a cursor that has moved or not.
newline-Emits :
    (l : Lexer) (c : Cursor) (b : Bool)
    → IsReady l
    → Moves 0 l.cur c
    → l.line_tok ≡ true
    → Emits l (bare TokenType.newline l) (record l { cur = c; at_line_start = b; line_tok = false })
newline-Emits l c b r m h = record {
  moves = m;
  at = l.cur;
  reached = Moves-refl l.cur;
  left = m;
  text = λ h. cc;
  line_is = refl;
  col_is = refl;
  sound = record { stack = r.stack; queue = rw r.empty tt };
  cost = inr (budget_lt l _ r.clear r.stack (omega (arith, length-Moves m, ap flag h)));
  balance = omega arith;
  finished = λ e. cc;
}

end_of_input-Emits : (l : Lexer) → IsReady l → at_end l.cur ≡ true → EmitsOf l (end_of_input l)
unfolding end_of_input
end_of_input-Emits l r e =
    if_rule (EmitsOf l) l.line_tok
      (λ h. newline-Emits l l.cur l.at_line_start r (Moves-refl l.cur) h)
      λ _.
        if_rule (λ (s : Lexer). EmitsOf l (close_blocks s)) (is_pos32 l.depth)
          (λ _.
            let kept = errorf-Keeps (position l.cur) (utf8 "未闭合的括号") [] l in
            close_blocks-Emits l _ r e kept.0 kept.1.indents_same (kept.1.pending_same ∙ r.empty)
              kept.1.line_tok_same)
          (λ _. close_blocks-Emits l l r e refl refl r.empty refl)

module _ (l s : Lexer) (r : IsReady l) (w : Within l s) where
  abbrev KeepsHere : Turn Lexer Result → Type 0
  KeepsHere = TurnKeeps (Within l) (EmitsOf l) (λ m. length m.cur.rest) (length l.cur.rest)

  on-Keeps : (c : Cursor) → Moves 1 s.cur c → KeepsHere (again (record s { cur = c }))
  on-Keeps c m = (Within-move l s c w m, omega (arith, length-Moves m, length-Moves w.moves))

  end_of_line-Keeps : (peek s.cur 0 == b'\n') ≡ true → KeepsHere (end_of_line s)
  unfolding end_of_line
  end_of_line-Keeps h =
      let first = Moves-advance s.cur (lt-length_peek s.cur 0 (ground arith)) in
      if_rule KeepsHere (is_pos32 s.depth) (λ _. on-Keeps (advance s.cur) first)
        λ _.
          if_rule KeepsHere s.line_tok
            (λ t. Within-Emits r w (
              newline-Emits s (advance s.cur) true (Within-IsReady w r)
                (Moves-weaken (omega arith) first) t))
            (λ _.
              let (w', less) = on-Keeps (advance s.cur) first in
              (
                record {
                  moves = w'.moves;
                  indents_same = w'.indents_same;
                  pending_same = w'.pending_same;
                  err_same = w'.err_same;
                  line_tok_same = w'.line_tok_same;
                },
                less,
              ))

  byte_in_line-Keeps : 0 < length s.cur.rest → KeepsHere (byte_in_line s)
  unfolding byte_in_line
  byte_in_line-Keeps some_byte =
      let ready = Within-IsReady w r in
      let first = Moves-advance s.cur some_byte in
      if_rule KeepsHere (peek s.cur 0 == b' ' || peek s.cur 0 == b'\r' || peek s.cur 0 == b'\t')
        (λ _. on-Keeps _ first)
        λ _. if_rule KeepsHere (peek s.cur 0 == b'\n') end_of_line-Keeps λ _.
          if_rule KeepsHere (peek s.cur 0 == b'#') (λ c. on-Keeps _ (skip_line-Moves s.cur c))
            λ _.
              if_rule KeepsHere (peek s.cur 0 == b'\\' && peek s.cur 1 == b'\n')
                (λ c. on-Keeps _ (
                  Moves-weaken (omega arith)
                    (Moves-advance_twice s.cur (lt-length_peek s.cur 1 (ground arith)))))
                (λ _. Within-Emits r w (mark_token-Emits s ready some_byte))

  in_line-Keeps : KeepsHere (in_line s)
  unfolding in_line
  in_line-Keeps =
      if_rule KeepsHere (at_end s.cur)
        (λ e. Within-Emits r w (end_of_input-Emits s (Within-IsReady w r) e))
        λ e.
          let some_byte = lt-length_at_end s.cur e in
          rw (index-inside s some_byte) (byte_in_line-Keeps some_byte)

after_start-Keeps :
    (l : Lexer) (q : Option Token × Lexer)
    → IsReady l
    → Started l q
    → TurnKeeps
        (Within l)
        (EmitsOf l)
        (λ m. length m.cur.rest)
        (length l.cur.rest)
        (after_start (some q))
after_start-Keeps l (none, s) r w = in_line-Keeps l s r w
after_start-Keeps l (some t, s) r e = e

next_turn-Keeps :
    (l : Lexer)
    → IsReady l
    → TurnKeeps (Within l) (EmitsOf l) (λ m. length m.cur.rest) (length l.cur.rest) (next_turn l)
unfolding next_turn
next_turn-Keeps l r =
    if_rule (TurnKeeps (Within l) (EmitsOf l) (λ m. length m.cur.rest) (length l.cur.rest))
      l.at_line_start
      (λ _. let (q, e, st) = line_start-Started l r in rw e (after_start-Keeps l q r st))
      (λ _. in_line-Keeps l l r (Within-refl l))

-- The loop of `next`, from a state with no error and nothing queued.
loop-Emits :
    (l : Lexer)
    → IsReady l
    → (q : Result) × (loop next_turn (suc (length l.cur.rest)) l ≡ some q) × EmitsOf l q
loop-Emits l r =
    loop_total (Within l) (EmitsOf l) (λ m. length m.cur.rest) next_turn
      (λ s w. relate s w (next_turn s) (next_turn-Keeps s (Within-IsReady w r)))
      (suc (length l.cur.rest)) l (omega arith) (Within-refl l)
  where
    relate :
        (s : Lexer)
        → Within l s
        → (t : Turn Lexer Result)
        → TurnKeeps (Within s) (EmitsOf s) (λ m. length m.cur.rest) (length s.cur.rest) t
        → TurnKeeps (Within l) (EmitsOf l) (λ m. length m.cur.rest) (length s.cur.rest) t
    relate s w (again s') k = (Within-trans w k.0, k.1)
    relate s w (return q) k = Within-Emits r w k
    relate s w stuck k = k

-- A call behind an error gives the end of the file once more.
stopped-Emits : (l : Lexer) → IsSound l → l.err ≢ none → Emits l (bare TokenType.eof l) l
stopped-Emits l s h = record {
  moves = Moves-refl l.cur;
  at = l.cur;
  reached = Moves-refl l.cur;
  left = Moves-refl l.cur;
  text = λ h. cc;
  line_is = refl;
  col_is = refl;
  sound = s;
  cost = inl refl;
  balance = omega arith;
  finished = λ _. inl h;
}

next_on-Emits :
    (l : Lexer) (p : List Token)
    → l.pending ≡ p
    → IsSound l
    → l.err ≡ none
    → (q : Result) × (next_on (pop_pending p l) ≡ some q) × EmitsOf l q
unfolding next_on pop_pending
next_on-Emits l [] e s c = loop-Emits l (record { clear = c; stack = s.stack; empty = e })
next_on-Emits l (t ∷ ts) e s c = (
  (t, record l { pending = ts }),
  refl,
  queue-Emits l l t ts e c s.stack s (Moves-refl l.cur) (omega arith) (omega arith),
)

next_after-Emits :
    (l : Lexer) (d : Option Diagnostic)
    → l.err ≡ d
    → IsSound l
    → (q : Result) × (next_after d l ≡ some q) × EmitsOf l q
unfolding next_after
next_after-Emits l none c s = next_on-Emits l l.pending refl s c
next_after-Emits l (some d) c s =
    ((bare TokenType.eof l, l), refl, stopped-Emits l s (λ n. cc (n, c)))

-- `next` always returns, and keeps the invariant.
pub next-Emits : (l : Lexer) → IsSound l → (q : Result) × (next l ≡ some q) × EmitsOf l q
unfolding next
next-Emits l s = next_after-Emits l l.err refl s
