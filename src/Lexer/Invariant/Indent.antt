-- ===== src/Lexer/Invariant/Indent.antt =====
-- `indent_to` and its parts: the indentation of a line becomes tokens in the queue, and the invariant is kept.
use fly_lang.Lexer.Cursor.{Cursor, position}
use fly_lang.Lexer.Invariant.Stack.{close_above-pending, close_above-Shuffles}
use fly_lang.Lexer.Invariant.{IsQueue-after}
use fly_lang.Lexer.Invariant.{IsStack, ups_in, downs_in, slots, flag, Balance, Shuffles, IsSound}
use fly_lang.Lexer.Layout.{
  top, touch_last, pop_pending, close_above, leave_start, settle, check_level, bad_level, indent,
  dedent_to, indent_to,
}
use fly_lang.Lexer.Moves.{Moves, length-Moves}
use fly_lang.Lexer.Scans.{errorf-Keeps}
use fly_lang.Lexer.State.{Lexer, push_pending, bare}
use fly_lang.Prelude.{
  ℕ, ◌+◌, ◌*◌, ◌≤◌, ◌<◌, not, ◌==◌, ltb, if_rule, length, utf8, List, [], ◌∷◌, ◌++◌, ◌≡◌, inl, refl,
  ap, ◌∙◌, arith,
}
use fly_lang.Token.{TokenType, Token}
use fly_lang.Lexer.Invariant.Start.{Within, IsReady, queue-Emits, Started, error-Emits}

settle-Started :
    (l s : Lexer) (p : List Token)
    → s.pending ≡ p
    → IsReady l
    → IsSound s
    → Moves 0 l.cur s.cur
    → 3 * length s.cur.rest + slots s ≤ 3 * length l.cur.rest + slots l
    → Balance l 0 0 s
    → (p ≡ [] → Within l (leave_start s))
    → Started l (settle p s)
unfolding settle pop_pending
settle-Started l s [] e r sound m c b quiet = quiet refl
settle-Started l s (t ∷ ts) e r sound m c b quiet =
    queue-Emits l (leave_start s) t ts e r.clear r.stack
      (record { stack = sound.stack; queue = sound.queue }) m c b

touch_last-IsStack : (is : List ℕ) (l : Lexer) → IsStack is → touch_last is l ≡ l
unfolding touch_last
touch_last-IsStack [] l s = absurd s
touch_last-IsStack (i ∷ is) l s = refl

module _ (l s : Lexer) (n : ℕ) (r : IsReady l) (w : Within l s) where
  indent-Started :
      top s.indents < n
      → n + length s.cur.rest ≤ length l.cur.rest
      → Started l (settle (indent n s).pending (indent n s))
  unfolding indent push_pending top
  indent-Started above h =
      let empty : s.pending ≡ [] = w.pending_same ∙ r.empty in
      let one : s.pending ++ bare TokenType.indent s ∷ [] ≡ bare TokenType.indent s ∷ [] =
        ap (λ (p : List Token). p ++ bare TokenType.indent s ∷ []) empty in
      settle-Started l _ _ refl r
        (record {
          stack = push_stack s.indents (rw w.indents_same r.stack) above;
          queue = rw one ((inl refl, refl, refl), tt);
        })
        w.moves
        (omega (arith, ap length one, ap length w.indents_same, ap flag w.line_tok_same, above))
        (omega (
          arith,
          ap ups_in one,
          ap downs_in one,
          ap length w.indents_same,
          ap ups_in r.empty,
          ap downs_in r.empty,
        ))
        (λ e. absurd (omega (arith, ap length one, ap length e)))
    where
      push_stack : (is : List ℕ) → IsStack is → top is < n → IsStack (n ∷ is)
      push_stack [] i a = absurd i
      push_stack (i ∷ is) st a = (a, st)

  abbrev closed : Lexer
  closed = close_above n s.indents s

  -- Stack, queue and place when the loop that pops is done.
  bad_level-Emits : Shuffles s closed × IsStack closed.indents → Started l (bad_level closed)
  unfolding bad_level
  bad_level-Emits (sh, st) =
      let kept = errorf-Keeps (position closed.cur) (utf8 "缩进级别与上层不一致") [] closed in
      let i = kept.1.indents_same in
      let p = kept.1.pending_same in
      error-Emits l _ r (rw (kept.0, sh.cur_same) w.moves)
        (record {
          stack = rw i st;
          queue = rw (p, kept.0) (IsQueue-after sh (rw (w.pending_same, r.empty) tt));
        })
        kept.2
        (omega (
          arith,
          sh.balance,
          ap length i,
          ap downs_in p,
          ap ups_in p,
          ap length w.indents_same,
          ap downs_in w.pending_same,
          ap ups_in w.pending_same,
        ))

  dedent-Started : n < top s.indents → Started l (check_level n (dedent_to n s))
  unfolding check_level dedent_to
  dedent-Started below =
      let (sh, st) = close_above-Shuffles n s.indents s refl (rw w.indents_same r.stack) in
      let some_queued = close_above-pending n s.indents s below in
      rw (touch_last-IsStack closed.indents closed st) (
        if_rule (Started l) (not (top closed.indents == n)) (λ _. bad_level-Emits (sh, st))
          (λ _.
            settle-Started l closed closed.pending refl r
              (record { stack = st; queue = IsQueue-after sh (rw (w.pending_same, r.empty) tt) })
              (rw sh.cur_same w.moves)
              (omega (
                arith,
                sh.slots_same,
                length-Moves w.moves,
                ap (λ (c : Cursor). length c.rest) sh.cur_same,
                ap length w.indents_same,
                ap length w.pending_same,
                ap flag w.line_tok_same,
                ap flag sh.line_tok_same,
              ))
              (omega (
                arith,
                sh.balance,
                ap length w.indents_same,
                ap downs_in w.pending_same,
                ap ups_in w.pending_same,
              ))
              (λ e. absurd (omega (arith, some_queued, ap length e)))))

  stay-Started : Started l (settle s.pending s)
  stay-Started =
      let empty : s.pending ≡ [] = w.pending_same ∙ r.empty in
      settle-Started l s s.pending refl r
        (record { stack = rw w.indents_same r.stack; queue = rw empty tt }) w.moves
        (omega (
          arith,
          length-Moves w.moves,
          ap length w.indents_same,
          ap length w.pending_same,
          ap flag w.line_tok_same,
        ))
        (omega
          (arith, ap length w.indents_same, ap downs_in w.pending_same, ap ups_in w.pending_same))
        (λ _. record {
          moves = w.moves;
          indents_same = w.indents_same;
          pending_same = w.pending_same;
          err_same = w.err_same;
          line_tok_same = w.line_tok_same;
        })

pub indent_to-Started :
    (l s : Lexer) (n : ℕ)
    → IsReady l
    → Within l s
    → n + length s.cur.rest ≤ length l.cur.rest
    → Started l (indent_to n s)
unfolding indent_to
indent_to-Started l s n r w h = rw (touch_last-IsStack s.indents s (rw w.indents_same r.stack)) (
    if_rule (Started l) (ltb (top s.indents) n) (λ above. indent-Started l s n r w (ground arith) h)
      (λ a.
        if_rule (Started l) (ltb n (top s.indents))
          (λ below. dedent-Started l s n r w (ground arith)) (λ _. stay-Started l s n r w)))
