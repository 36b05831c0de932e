-- ===== src/Lexer/Invariant/Line.antt =====
-- `line_start` returns, within its fuel: a token with the invariant kept, or none with only the cursor
-- moved and the flag cleared.
use fly_lang.Lexer.Cursor.{Cursor, peek, at_end, skip_line, position}
use fly_lang.Lexer.Invariant.{ups_in, downs_in}
use fly_lang.Lexer.Layout.{
  bad_tab, found, leave_start, end_at_start, byte_at_start, after_spaces, line_turn, line_start,
}
use fly_lang.Lexer.Loop.{Turn, again, return, stuck, Keeps as TurnKeeps, loop_total}
use fly_lang.Lexer.Moves.{
  Moves, Moves-trans, Moves-weaken, Moves-advance, Moves-advance_twice, Moves-advance_while,
  Moves-advance_while_first, lt-length_peek, lt-length_at_end, length-Moves, length-count,
  off-Moves,
}
use fly_lang.Lexer.Scans.{errorf-Keeps, index-inside}
use fly_lang.Lexer.State.{Lexer}
use fly_lang.Prelude.{
  ℕ, suc, ◌+◌, ◌≤◌, ◌<◌, not, true, ◌&&◌, ◌==◌, if_rule, length, utf8, [], ◌≡◌, refl, ap, ◌∙◌,
  arith, Option, none, some,
}
use fly_lang.Token.{Token}
use fly_lang.Lexer.Invariant.Start.{
  Within, Within-refl, Within-trans, IsReady, Within-IsReady, Within-Emits, Started,
  close_blocks-Emits, error-Emits,
}
use fly_lang.Lexer.Invariant.Indent.{indent_to-Started}

Within-Started :
    (l s : Lexer) (q : Option Token × Lexer) → IsReady l → Within l s → Started s q → Started l q
Within-Started l s (none, l') r w h = Within-trans w h
Within-Started l s (some t, l') r w h = Within-Emits r w h

pub Within-move :
    {k : ℕ} (l s : Lexer) (c : Cursor)
    → Within l s
    → Moves k s.cur c
    → Within l (record s { cur = c })
Within-move l s c w m = record {
  moves = Moves-weaken (omega arith) (Moves-trans w.moves m);
  indents_same = w.indents_same;
  pending_same = w.pending_same;
  err_same = w.err_same;
  line_tok_same = w.line_tok_same;
}

pub skip_line-Moves : (c : Cursor) → (peek c 0 == b'#') ≡ true → Moves 1 c (skip_line c)
unfolding skip_line
skip_line-Moves c h =
    Moves-advance_while_first _ c (lt-length_peek c 0 (ground arith)) (ground arith)

bad_tab-Started : (l s : Lexer) → IsReady l → Within l s → Started l (bad_tab s)
unfolding bad_tab
bad_tab-Started l s r w =
    let kept = errorf-Keeps (position s.cur) (utf8 "行首不支持制表符缩进") [] s in
    let i = kept.1.indents_same ∙ w.indents_same in
    let p = kept.1.pending_same ∙ w.pending_same in
    error-Emits l _ r (rw kept.0 w.moves)
      (record { stack = rw i r.stack; queue = rw (p, r.empty) tt }) kept.2
      (omega (arith, ap length i, ap downs_in p, ap ups_in p))

module _ (l s : Lexer) (n : ℕ) (r : IsReady l) (w : Within l s)
    (h : n + length s.cur.rest ≤ length l.cur.rest) where
  abbrev KeepsHere : Turn Lexer (Option Token × Lexer) → Type 0
  KeepsHere = TurnKeeps (Within l) (Started l) (λ m. length m.cur.rest) (length l.cur.rest)

  on-Keeps : (c : Cursor) → Moves 1 s.cur c → KeepsHere (again (record s { cur = c }))
  on-Keeps c m = (Within-move l s c w m, omega (arith, length-Moves m))

  byte_at_start-Keeps : 0 < length s.cur.rest → KeepsHere (byte_at_start n s)
  unfolding byte_at_start
  byte_at_start-Keeps some_byte =
      if_rule KeepsHere (peek s.cur 0 == b'\n') (λ _. on-Keeps _ (Moves-advance s.cur some_byte))
        λ _.
          if_rule KeepsHere (peek s.cur 0 == b'#') (λ c. on-Keeps _ (skip_line-Moves s.cur c))
            λ _.
              if_rule KeepsHere (peek s.cur 0 == b'\\' && peek s.cur 1 == b'\n')
                (λ c. on-Keeps _ (
                  Moves-weaken (omega arith)
                    (Moves-advance_twice s.cur (lt-length_peek s.cur 1 (ground arith)))))
                (λ _. indent_to-Started l s n r w h)

  -- One turn of the outer loop.
  after_spaces-Keeps : KeepsHere (after_spaces n s)
  unfolding after_spaces
  after_spaces-Keeps =
      let ended : at_end s.cur ≡ true → Started l (found (end_at_start s)) = λ e. Within-Emits r w (
        close_blocks-Emits s (leave_start s) (Within-IsReady w r) e refl refl
          (w.pending_same ∙ r.empty) refl) in
      if_rule KeepsHere (not (at_end s.cur) && peek s.cur 0 == b'\t') (λ _. bad_tab-Started l s r w)
        λ _. if_rule KeepsHere (at_end s.cur) ended λ e.
          let some_byte = lt-length_at_end s.cur e in
          rw (index-inside s some_byte) (byte_at_start-Keeps some_byte)

line_turn-Keeps :
    (l : Lexer)
    → IsReady l
    → TurnKeeps (Within l) (Started l) (λ m. length m.cur.rest) (length l.cur.rest) (line_turn l)
unfolding line_turn
line_turn-Keeps l r =
    let m = Moves-advance_while (λ b. b == b' ') l.cur in
    after_spaces-Keeps l _ _ r (Within-move l l _ (Within-refl l) m)
      (omega (arith, off-Moves m, m.fits, length-count m))

-- The fuel of `line_start` is enough.
pub line_start-Started :
    (l : Lexer) → IsReady l → (q : Option Token × Lexer) × (line_start l ≡ some q) × Started l q
unfolding line_start
line_start-Started l r =
    loop_total (Within l) (Started l) (λ m. length m.cur.rest) line_turn
      (λ s w. relate s w (line_turn s) (line_turn-Keeps s (Within-IsReady w r)))
      (suc (length l.cur.rest)) l (omega arith) (Within-refl l)
  where
    relate :
        (s : Lexer)
        → Within l s
        → (t : Turn Lexer (Option Token × Lexer))
        → TurnKeeps (Within s) (Started s) (λ m. length m.cur.rest) (length s.cur.rest) t
        → TurnKeeps (Within l) (Started l) (λ m. length m.cur.rest) (length s.cur.rest) t
    relate s w (again s') k = (Within-trans w k.0, k.1)
    relate s w (return q) k = Within-Started l s q r w k
    relate s w stuck k = k
