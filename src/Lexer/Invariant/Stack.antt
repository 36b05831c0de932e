-- ===== src/Lexer/Invariant/Stack.antt =====
-- The operations on the stack of indentations and on the queue.
use fly_lang.Lexer.Cursor.{Cursor}
use fly_lang.Lexer.Invariant.{
  IsStack, ups_in, downs_in, IsQueue, IsQueued, Shuffles, Shuffles-refl, Shuffles-trans,
}
use fly_lang.Lexer.Layout.{top, close_all, close_above}
use fly_lang.Lexer.State.{Lexer, push_pending, bare}
use fly_lang.Prelude.{
  ℕ, ◌+◌, ◌<◌, ◌≤◌, true, false, ltb, length, length-append, List, [], ◌∷◌, ◌++◌, ◌≡◌, inl, inr,
  refl, sym, ap, ◌∙◌, arith, Bool-cases,
}
use fly_lang.Token.{TokenType, Token}

pub ups_in-append : (a b : List Token) → ups_in (a ++ b) ≡ ups_in a + ups_in b
ups_in-append [] b = omega arith
ups_in-append (t ∷ a) b = omega (arith, ups_in-append a b)

pub downs_in-append : (a b : List Token) → downs_in (a ++ b) ≡ downs_in a + downs_in b
downs_in-append [] b = omega arith
downs_in-append (t ∷ a) b = omega (arith, downs_in-append a b)

pub IsQueue-append :
    (c : Cursor) (a : List Token) (t : Token) → IsQueue c a → IsQueued c t → IsQueue c (a ++ t ∷ [])
IsQueue-append c [] t q h = (h, tt)
IsQueue-append c (u ∷ a) t q h = (q.0, IsQueue-append c a t q.1 h)

-- A level popped is a `Dedent` queued.
pop-Shuffles :
    (l : Lexer) (i : ℕ) (is : List ℕ)
    → i ∷ is ≡ l.indents
    → Shuffles l (push_pending TokenType.dedent (record l { indents = is }))
unfolding push_pending
pop-Shuffles l i is e = record {
  cur_same = refl;
  err_same = refl;
  start_same = refl;
  line_tok_same = refl;
  slots_same =
      omega (arith, ap length e, length-append {0} l.pending (bare TokenType.dedent l ∷ []));
  balance = omega (
    arith,
    ap length e,
    downs_in-append l.pending (bare TokenType.dedent l ∷ []),
    ups_in-append l.pending (bare TokenType.dedent l ∷ []),
  );
  queue = λ q. IsQueue-append l.cur l.pending _ q (inr refl, refl, refl);
}

pub close_all-Shuffles :
    (is : List ℕ) (l : Lexer)
    → is ≡ l.indents
    → IsStack is
    → Shuffles l (close_all is l) × ((close_all is l).indents ≡ 0 ∷ [])
unfolding close_all push_pending
close_all-Shuffles [] l e s = absurd s
close_all-Shuffles (i ∷ []) l e s = (Shuffles-refl l, sym e ∙ ap (λ (n : ℕ). n ∷ []) s)
close_all-Shuffles (i ∷ j ∷ is) l e s =
    let (rest, last) =
      close_all-Shuffles (j ∷ is) (push_pending TokenType.dedent (record l { indents = j ∷ is }))
        refl s.1 in
    (Shuffles-trans (pop-Shuffles l i (j ∷ is) e) rest, last)

-- The levels above `n` are popped, and 0 is never one of them.
pub close_above-Shuffles :
    (n : ℕ) (is : List ℕ) (l : Lexer)
    → is ≡ l.indents
    → IsStack is
    → Shuffles l (close_above n is l) × IsStack (close_above n is l).indents
unfolding close_above push_pending
close_above-Shuffles n [] l e s = absurd s
close_above-Shuffles n (i ∷ []) l e s =
    let kept : ltb n i ≡ false = ground (arith, s) in
    rw (kept, close_above) (Shuffles-refl l, rw (← e) s)
close_above-Shuffles n (i ∷ j ∷ is) l e s =
    let popped = push_pending TokenType.dedent (record l { indents = j ∷ is }) in
    let (more, stack) = close_above-Shuffles n (j ∷ is) popped refl s.1 in
    elim (Bool-cases (ltb n i)) [
      | inl above ↦
          rw (above, close_above) (Shuffles-trans (pop-Shuffles l i (j ∷ is) e) more, stack)
      | inr kept ↦ rw (kept, close_above) (Shuffles-refl l, rw (← e) s)
    ]

close_above-grows :
    (n : ℕ) (is : List ℕ) (l : Lexer) → length l.pending ≤ length (close_above n is l).pending
unfolding close_above push_pending
close_above-grows n [] l = omega arith
close_above-grows n (i ∷ is) l = elim (Bool-cases (ltb n i)) [
  | inl above ↦
      rw (above, close_above)
        (let popped = push_pending TokenType.dedent (record l { indents = is }) in
          omega (
            arith,
            close_above-grows n is popped,
            length-append {0} l.pending (bare TokenType.dedent l ∷ []),
          ))
  | inr kept ↦ rw (kept, close_above) (omega arith)
]

-- A line further left than the top of the stack queues something.
pub close_above-pending :
    (n : ℕ) (is : List ℕ) (l : Lexer) → n < top is → 0 < length (close_above n is l).pending
unfolding close_above push_pending top
close_above-pending n [] l h = absurd (omega arith)
close_above-pending n (i ∷ is) l h =
    let popped = push_pending TokenType.dedent (record l { indents = is }) in
    let above : ltb n i ≡ true = ground arith in
    rw (above, close_above)
      (omega (
        arith,
        close_above-grows n is popped,
        length-append {0} l.pending (bare TokenType.dedent l ∷ []),
      ))
