-- ===== src/Lexer/Invariant/Start.antt =====
-- `line_start` returns, within its fuel: a token with the invariant kept, or none with only the cursor
-- moved and the flag cleared.
use fly_lang.Lexer.Cursor.{Cursor, at_end}
use fly_lang.Lexer.Invariant.Stack.{close_all-Shuffles}
use fly_lang.Lexer.Invariant.{IsQueue-after}
use fly_lang.Lexer.Invariant.{
  IsStack, ups_in, downs_in, IsQueue, slots, flag, Balance, budget, IsSound, Emits,
}
use fly_lang.Lexer.Layout.{front_or_eof, close_blocks}
use fly_lang.Lexer.Moves.{Moves, Moves-refl, Moves-trans, length-Moves}
use fly_lang.Lexer.State.{Lexer, bare}
use fly_lang.Prelude.{
  ℕ, ◌+◌, ◌*◌, ◌≤◌, ◌<◌, true, length, List, [], ◌∷◌, ◌≡◌, ◌≢◌, inl, inr, refl, sym, ap, subst, ◌∙◌,
  arith, Option-cases, Option, none, some,
}
use fly_lang.Token.{TokenType, Token}

-- Only the cursor has moved, and a flag or two.
pub record Within (l s : Lexer) : Type 0 where
  pub moves : Moves 0 l.cur s.cur
  pub indents_same : s.indents ≡ l.indents
  pub pending_same : s.pending ≡ l.pending
  pub err_same : s.err ≡ l.err
  pub line_tok_same : s.line_tok ≡ l.line_tok

pub Within-refl : (l : Lexer) → Within l l
Within-refl l = record {
  moves = Moves-refl l.cur;
  indents_same = refl;
  pending_same = refl;
  err_same = refl;
  line_tok_same = refl;
}

pub Within-trans : {l m n : Lexer} → Within l m → Within m n → Within l n
Within-trans a b = record {
  moves = Moves-trans a.moves b.moves;
  indents_same = b.indents_same ∙ a.indents_same;
  pending_same = b.pending_same ∙ a.pending_same;
  err_same = b.err_same ∙ a.err_same;
  line_tok_same = b.line_tok_same ∙ a.line_tok_same;
}

-- Where a call of `next` that goes on stands: no error, nothing queued, a sound stack.
pub record IsReady (l : Lexer) : Type 0 where
  pub clear : l.err ≡ none
  pub stack : IsStack l.indents
  pub empty : l.pending ≡ []

pub Within-IsReady : {l s : Lexer} → Within l s → IsReady l → IsReady s
Within-IsReady w r = record {
  clear = w.err_same ∙ r.clear;
  stack = rw w.indents_same r.stack;
  empty = w.pending_same ∙ r.empty;
}

pub length_pos : (is : List ℕ) → IsStack is → 0 < length is
length_pos [] h = absurd h
length_pos (i ∷ is) h = omega arith

pub budget_lt :
    (l l' : Lexer)
    → l.err ≡ none
    → IsStack l.indents
    → 3 * length l'.cur.rest + slots l' < 3 * length l.cur.rest + slots l
    → budget l' < budget l
budget_lt l l' clear s h = elim (Option-cases l'.err) [
  | inl e ↦ rw (e, clear) (omega arith)
  | inr (d, e) ↦ rw (e, clear) (omega (arith, length_pos l.indents s))
]

pub budget_err :
    (l l' : Lexer) → l.err ≡ none → IsStack l.indents → l'.err ≢ none → budget l' < budget l
budget_err l l' clear s h = elim (Option-cases l'.err) [
  | inl e ↦ absurd (h e)
  | inr (d, e) ↦ rw (e, clear) (omega (arith, length_pos l.indents s))
]

-- The front of the queue is emitted.
pub queue-Emits :
    (l s : Lexer) (t : Token) (ts : List Token)
    → s.pending ≡ t ∷ ts
    → l.err ≡ none
    → IsStack l.indents
    → IsSound s
    → Moves 0 l.cur s.cur
    → 3 * length s.cur.rest + slots s ≤ 3 * length l.cur.rest + slots l
    → Balance l 0 0 s
    → Emits l t (record s { pending = ts })
queue-Emits l s t ts e clear stack sound m h b =
    let q : IsQueue s.cur (t ∷ ts) = subst (IsQueue s.cur) e sound.queue in
    record {
      moves = m;
      at = s.cur;
      reached = m;
      left = Moves-refl s.cur;
      text = λ h. elim q.0.0 [ inl i ↦ cc | inr i ↦ cc ];
      line_is = q.0.1;
      col_is = q.0.2;
      sound = record { stack = sound.stack; queue = q.1 };
      cost = inr (budget_lt l _ clear stack (omega (arith, ap length e, h)));
      balance = omega (arith, b, ap downs_in e, ap ups_in e);
      finished = λ eof. elim q.0.0 [ inl i ↦ cc | inr i ↦ cc ];
    }

budget-Within : (l s : Lexer) → IsReady l → Within l s → budget s ≤ budget l
budget-Within l s r w =
    let clear : s.err ≡ none = w.err_same ∙ r.clear in
    rw (clear, r.clear)
      (omega (
        arith,
        length-Moves w.moves,
        ap length w.indents_same,
        ap length w.pending_same,
        ap flag w.line_tok_same,
      ))

pub Within-Emits :
    {l s : Lexer} {t : Token} {l' : Lexer} → IsReady l → Within l s → Emits s t l' → Emits l t l'
Within-Emits {l} {s} r w e = record {
  moves = Moves-trans w.moves e.moves;
  at = e.at;
  reached = Moves-trans w.moves e.reached;
  left = e.left;
  text = e.text;
  line_is = e.line_is;
  col_is = e.col_is;
  sound = e.sound;
  cost = elim e.cost [
    | inl eof ↦ inl eof
    | inr less ↦ inr (omega (arith, less, budget-Within l s r w))
  ];
  balance = omega (
    arith,
    e.balance,
    ap length w.indents_same,
    ap downs_in w.pending_same,
    ap ups_in w.pending_same,
  );
  finished = e.finished;
}

-- What `line_start` returns.
abbrev pub Started : Lexer → Option Token × Lexer → Type 0
Started l (none, l') = Within l l'
Started l (some t, l') = Emits l t l'

rest_nil : (c : Cursor) → at_end c ≡ true → c.rest ≡ []
unfolding at_end
rest_nil c h = ground arith

front_or_eof-Emits :
    (l s : Lexer) (p : List Token)
    → IsReady l
    → at_end l.cur ≡ true
    → s.cur ≡ l.cur
    → s.indents ≡ 0 ∷ []
    → s.pending ≡ p
    → IsQueue s.cur p
    → slots s ≡ slots l
    → Balance l 0 0 s
    → Emits l (front_or_eof p s).0 (front_or_eof p s).1
unfolding front_or_eof
front_or_eof-Emits l s [] r e c one h q n b = record {
  moves = rw c (Moves-refl l.cur);
  at = s.cur;
  reached = rw c (Moves-refl l.cur);
  left = Moves-refl s.cur;
  text = λ h. cc;
  line_is = refl;
  col_is = refl;
  sound = record { stack = rw one refl; queue = rw h tt };
  cost = inl refl;
  balance = b;
  finished = λ _. inr (one, h, rw c (rest_nil l.cur e));
}
front_or_eof-Emits l s (t ∷ ts) r e c one h q n b =
    queue-Emits l s t ts h r.clear r.stack (record { stack = rw one refl; queue = rw h q })
      (rw c (Moves-refl l.cur)) (omega (arith, n, ap (λ (x : Cursor). length x.rest) c)) b

-- At the end of the input each call closes one block, and the last one ends the file.
pub close_blocks-Emits :
    (l s : Lexer)
    → IsReady l
    → at_end l.cur ≡ true
    → s.cur ≡ l.cur
    → s.indents ≡ l.indents
    → s.pending ≡ []
    → s.line_tok ≡ l.line_tok
    → Emits l (close_blocks s).0 (close_blocks s).1
unfolding close_blocks
close_blocks-Emits l s r e c i p k =
    let (sh, one) = close_all-Shuffles s.indents s refl (rw i r.stack) in
    let empty : s.pending ≡ l.pending = p ∙ sym r.empty in
    front_or_eof-Emits l _ _ r e (sh.cur_same ∙ c) one refl (IsQueue-after sh (rw p tt))
      (omega
        (arith, sh.slots_same, ap length i, ap length empty, ap flag sh.line_tok_same, ap flag k))
      (omega (arith, sh.balance, ap length i, ap downs_in empty, ap ups_in empty))

-- An error ends the run of calls.
pub error-Emits :
    (l s : Lexer)
    → IsReady l
    → Moves 0 l.cur s.cur
    → IsSound s
    → s.err ≢ none
    → Balance l 0 0 s
    → Emits l (bare TokenType.illegal s) s
error-Emits l s r m sound failed b = record {
  moves = m;
  at = s.cur;
  reached = m;
  left = Moves-refl s.cur;
  text = λ h. cc;
  line_is = refl;
  col_is = refl;
  sound = sound;
  cost = inr (budget_err l s r.clear r.stack failed);
  balance = b;
  finished = λ eof. inl failed;
}
