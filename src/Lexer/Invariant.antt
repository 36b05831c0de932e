-- ===== src/Lexer/Invariant.antt =====
-- What stays true of the lexer of src/lexer/lexer.rs from call to call: the stack of indentations falls
-- to 0, the queue holds layout alone, and stack, queue and emitted tokens stand in a balance.
pub mod Stack
pub mod Start
pub mod Indent
pub mod Line
pub mod Next
pub mod Whole
use fly_lang.Diagnostic.{Diagnostic}
use fly_lang.Lexer.Cursor.{Cursor}
use fly_lang.Lexer.Moves.{Moves}
use fly_lang.Lexer.Scans.{HasText}
use fly_lang.Lexer.State.{Lexer}
use fly_lang.Prelude.{
  ℕ, ◌+◌, ◌*◌, ◌≤◌, ◌<◌, Bool, true, false, if◌then◌else◌, length, List, [], ◌∷◌, ◌++◌, ◌≡◌, ◌≢◌,
  ◌⊎◌, refl, ◌∙◌, sym, arith, Option, none, some,
}
use fly_lang.Token.{TokenType, Token}

-- Top first: each level above the next, and 0 at the bottom.
abbrev pub IsStack : List ℕ → Type 0
IsStack [] = ⊥
IsStack (i ∷ []) = i ≡ 0
IsStack (i ∷ j ∷ is) = (j < i) × IsStack (j ∷ is)

-- How much a token opens and how much it closes.
abbrev pub ups : TokenType → ℕ
ups TokenType.indent = 1
ups _ = 0

abbrev pub downs : TokenType → ℕ
downs TokenType.dedent = 1
downs _ = 0

abbrev pub ups_in : List Token → ℕ
ups_in [] = 0
ups_in (t ∷ ts) = ups t.ty + ups_in ts

abbrev pub downs_in : List Token → ℕ
downs_in [] = 0
downs_in (t ∷ ts) = downs t.ty + downs_in ts

-- Layout alone, at the place where the lexer stands.
abbrev pub IsQueued : Cursor → Token → Type 0
IsQueued c t =
    ((t.ty ≡ TokenType.indent) ⊎ (t.ty ≡ TokenType.dedent)) × (t.line ≡ c.line) × (t.col ≡ c.col)

abbrev pub IsQueue : Cursor → List Token → Type 0
IsQueue c [] = Unit
IsQueue c (t ∷ ts) = IsQueued c t × IsQueue c ts

abbrev pub flag : Bool → ℕ
flag true = 1
flag false = 0

-- What the lexer still owes, beside what the unread bytes bring.
abbrev pub slots : Lexer → ℕ
slots l = length l.indents + length l.pending + flag l.line_tok

-- The open blocks, with the queue taken as if it were emitted, on both sides of an equation: `t` is
-- emitted between `l` and `l'`.
abbrev pub Balance : Lexer → ℕ → ℕ → Lexer → Type 0
Balance l up down l' =
    length l'.indents + downs_in l'.pending + ups_in l.pending + down
    ≡ length l.indents + downs_in l.pending + ups_in l'.pending + up

-- From `l` to `l'` with no token emitted and no byte read.
pub record Shuffles (l l' : Lexer) : Type 0 where
  pub cur_same : l'.cur ≡ l.cur
  pub err_same : l'.err ≡ l.err
  pub start_same : l'.at_line_start ≡ l.at_line_start
  pub line_tok_same : l'.line_tok ≡ l.line_tok
  pub slots_same : length l'.indents + length l'.pending ≡ length l.indents + length l.pending
  pub balance : Balance l 0 0 l'
  pub queue : IsQueue l.cur l.pending → IsQueue l.cur l'.pending

pub Shuffles-refl : (l : Lexer) → Shuffles l l
Shuffles-refl l = record {
  cur_same = refl;
  err_same = refl;
  start_same = refl;
  line_tok_same = refl;
  slots_same = refl;
  balance = omega arith;
  queue = λ q. q;
}

pub Shuffles-trans : {l m n : Lexer} → Shuffles l m → Shuffles m n → Shuffles l n
Shuffles-trans a b = record {
  cur_same = b.cur_same ∙ a.cur_same;
  err_same = b.err_same ∙ a.err_same;
  start_same = b.start_same ∙ a.start_same;
  line_tok_same = b.line_tok_same ∙ a.line_tok_same;
  slots_same = b.slots_same ∙ a.slots_same;
  balance = omega (arith, a.balance, b.balance);
  queue = λ q. rw a.cur_same at (b.queue (rw a.cur_same (a.queue q)));
}

pub IsQueue-after :
    {l l' : Lexer} → Shuffles l l' → IsQueue l.cur l.pending → IsQueue l'.cur l'.pending
IsQueue-after s q = rw s.cur_same (s.queue q)

-- The number of calls of `next` that may still be needed.
abbrev pub budget_on : Option Diagnostic → Lexer → ℕ
budget_on none l = 3 * length l.cur.rest + slots l + 1
budget_on (some e) l = 1

abbrev pub budget : Lexer → ℕ
budget l = budget_on l.err l

pub record IsSound (l : Lexer) : Type 0 where
  pub stack : IsStack l.indents
  pub queue : IsQueue l.cur l.pending

-- From `l` to `l'` with the token `t` emitted.
pub record Emits (l : Lexer) (t : Token) (l' : Lexer) : Type 0 where
  pub moves : Moves 0 l.cur l'.cur
  -- The place of the token.
  pub at : Cursor
  pub reached : Moves 0 l.cur at
  pub left : Moves 0 at l'.cur
  pub text : HasText at t.ty t.lit
  pub line_is : t.line ≡ at.line
  pub col_is : t.col ≡ at.col
  pub sound : IsSound l'
  pub cost : (t.ty ≡ TokenType.eof) ⊎ (budget l' < budget l)
  pub balance : Balance l (ups t.ty) (downs t.ty) l'
  -- The last token of a file with no error leaves nothing open.
  pub finished :
      t.ty ≡ TokenType.eof
      → (l'.err ≢ none) ⊎ ((l'.indents ≡ 0 ∷ []) × (l'.pending ≡ []) × (l'.cur.rest ≡ []))
