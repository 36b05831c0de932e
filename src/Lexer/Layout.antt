-- ===== src/Lexer/Layout.antt =====
-- src/lexer/lexer.rs: `line_start`, which skips blank lines and turns indentation into tokens.
use fly_lang.Lexer.Cursor.{advance, advance_while, peek, at_end, skip_line, position}
use fly_lang.Lexer.Loop.{Turn, again, return, loop}
use fly_lang.Lexer.State.{Lexer, index, bare, errorf, push_pending}
use fly_lang.Prelude.{
  ℕ, suc, ◌-◌, true, false, not, ◌&&◌, ◌==◌, ltb, if◌then◌else◌, length, utf8, List, [], ◌∷◌,
  Option, none, some,
}
use fly_lang.Token.{TokenType, Token}

-- `indents.last().unwrap()`, and its panic on an empty stack.
unfoldable pub top : List ℕ → ℕ
top [] = 0
top (i ∷ is) = i

unfoldable pub touch_last : List ℕ → Lexer → Lexer
touch_last [] l = record l { cur = record l.cur { panicked = true } }
touch_last (i ∷ is) l = l

-- `pending.remove(0)` where there is one.
unfoldable pub pop_pending : List Token → Lexer → Option Token × Lexer
pop_pending [] l = (none, l)
pop_pending (t ∷ ts) l = (some t, record l { pending = ts })

-- `while self.indents.len() > 1`: pop, and push a `Dedent`. The list is the stack.
unfoldable pub close_all : List ℕ → Lexer → Lexer
close_all [] l = l
close_all (i ∷ []) l = l
close_all (i ∷ j ∷ is) l =
    close_all (j ∷ is) (push_pending TokenType.dedent (record l { indents = j ∷ is }))

-- `while !indents.is_empty() && *indents.last().unwrap() > n`.
unfoldable pub close_above : ℕ → List ℕ → Lexer → Lexer
close_above n [] l = l
close_above n (i ∷ is) l = elim (ltb n i) [
  | true ↦ close_above n is (push_pending TokenType.dedent (record l { indents = is }))
  | false ↦ l
]

abbrev pub leave_start : Lexer → Lexer
leave_start l = record l { at_line_start = false }

-- Behind the comparison with the top of the stack; the list is the queue.
unfoldable pub settle : List Token → Lexer → Option Token × Lexer
unfolding pop_pending
settle p l = pop_pending p (leave_start l)

-- A level that the line does not come back to.
unfoldable pub bad_level : Lexer → Option Token × Lexer
bad_level l =
    let l' = leave_start (errorf (position l.cur) (utf8 "缩进级别与上层不一致") [] l) in
    (some (bare TokenType.illegal l'), l')

-- Behind the loop that pops.
unfoldable pub check_level : ℕ → Lexer → Option Token × Lexer
unfolding top
check_level n l = if not (top l.indents == n) then bad_level l else settle l.pending l

unfoldable pub indent : ℕ → Lexer → Lexer
indent n l = push_pending TokenType.indent (record l { indents = n ∷ l.indents })

unfoldable pub dedent_to : ℕ → Lexer → Lexer
unfolding close_above touch_last
dedent_to n l = let l' = close_above n l.indents l in touch_last l'.indents l'

-- The last arm of the `match`: a line with a token on it, behind `n` spaces.
unfoldable pub indent_to : ℕ → Lexer → Option Token × Lexer
unfolding touch_last top settle
indent_to n l₀ =
    let l = touch_last l₀.indents l₀ in
    if ltb (top l.indents) n
    then settle (indent n l).pending (indent n l)
    else if ltb n (top l.indents)
    then check_level n (dedent_to n l)
    else settle l.pending l

-- The front of the queue, which is the argument, and the end of the file where it is empty.
unfoldable pub front_or_eof : List Token → Lexer → Token × Lexer
front_or_eof [] l = (bare TokenType.eof l, l)
front_or_eof (t ∷ ts) l = (t, record l { pending = ts })

-- The code at the end of the input that `next` and `line_start` share.
unfoldable pub close_blocks : Lexer → Token × Lexer
unfolding front_or_eof
close_blocks l = let l' = close_all l.indents l in front_or_eof l'.pending l'

-- The end of the input at the start of a line.
abbrev pub end_at_start : Lexer → Token × Lexer
end_at_start l = close_blocks (leave_start l)

abbrev pub found : Token × Lexer → Option Token × Lexer
found (t, l) = (some t, l)

unfoldable pub bad_tab : Lexer → Option Token × Lexer
bad_tab l =
    let l' = leave_start (errorf (position l.cur) (utf8 "行首不支持制表符缩进") [] l) in
    (some (bare TokenType.illegal l'), l')

-- Behind the second read of the byte, where the input does not end.
unfoldable pub byte_at_start : ℕ → Lexer → Turn Lexer (Option Token × Lexer)
byte_at_start n l =
    let c = peek l.cur 0 in
    if c == b'\n'
    then again (record l { cur = advance l.cur })
    else if c == b'#'
    then again (record l { cur = skip_line l.cur })
    else if c == b'\\' && peek l.cur 1 == b'\n'
    then again (record l { cur = advance (advance l.cur) })
    else return (indent_to n l)

-- One turn of the outer loop, where the inner loop has passed `n` spaces and stops: at a tab, at another
-- byte, or at the end of the input. Its condition guards its own read.
unfoldable pub after_spaces : ℕ → Lexer → Turn Lexer (Option Token × Lexer)
after_spaces n l =
    if not (at_end l.cur) && peek l.cur 0 == b'\t'
    then return (bad_tab l)
    else if at_end l.cur
    then return (found (end_at_start l))
    else byte_at_start n (index l)

unfoldable pub line_turn : Lexer → Turn Lexer (Option Token × Lexer)
unfolding after_spaces
line_turn l =
    let e = advance_while (λ b. b == b' ') l.cur.rest l.cur in
    after_spaces (e.off - l.cur.off) (record l { cur = e })

-- The fuel is above the number of bytes left, and each turn that goes on takes one at least.
unfoldable pub line_start : Lexer → Option (Option Token × Lexer)
line_start l = loop line_turn (suc (length l.cur.rest)) l
