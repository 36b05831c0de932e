-- ===== src/Lexer/Scans/LexToken.antt =====
-- `lex_token` of src/lexer/lexer.rs as a scanner: the branch that is taken starts at a byte that its
-- scanner wants.
use fly_lang.Lexer.Cursor.{Cursor, advance, peek, byte_at, is_ident_start}
use fly_lang.Lexer.Moves.{Moves-weaken, Moves-advance_thrice, lt-length_peek}
use fly_lang.Lexer.Next.{token_here, lex_token, scan_ellipsis, is_prefix_letter}
use fly_lang.Lexer.Numbers.{is_digit}
use fly_lang.Lexer.Scans.Numbers.{scan_number-Scans}
use fly_lang.Lexer.Scans.Operators.{scan_op-Scans}
use fly_lang.Lexer.Scans.Words.{
  is_quote, scan_ident-Scans, scan_string-Scans, scan_string_prefix-Scans,
}
use fly_lang.Lexer.Scans.{Scans, HasText, index-inside, Scans-token}
use fly_lang.Lexer.State.{Lexer}
use fly_lang.Lexer.Words.{is_string_prefix}
use fly_lang.Prelude.{
  Bytes, ◌∷◌, take, length, ◌<◌, Bool, true, ◌&&◌, ◌==◌, ◌≡◌, refl, arith, if_rule, utf8, [],
}
use fly_lang.Token.{TokenType}

and_left : (a b : Bool) → (a && b) ≡ true → (a ≡ true) × (b ≡ true)
and_left a b h = ground arith

-- Three dots that are seen stand in the source.
take-dots :
    (bs : Bytes)
    → (byte_at bs 0 == b'.' && byte_at bs 1 == b'.' && byte_at bs 2 == b'.') ≡ true
    → take 3 bs ≡ utf8 "..."
unfolding byte_at
take-dots [] h = ground arith
take-dots (a ∷ []) h = ground arith
take-dots (a ∷ b ∷ []) h = ground arith
take-dots (a ∷ b ∷ c ∷ bs) h =
    let x : a ≡ b'.' = ground arith in
    let y : b ≡ b'.' = ground arith in let z : c ≡ b'.' = ground arith in rw (x, y, z) refl

dots-HasText :
    (c : Cursor)
    → (peek c 0 == b'.' && peek c 1 == b'.' && peek c 2 == b'.') ≡ true
    → HasText c TokenType.ellipsis (utf8 "...")
unfolding peek
dots-HasText c h _ = take-dots c.rest h

token_here-Scans : (l : Lexer) → 0 < length l.cur.rest → Scans l (token_here l)
unfolding token_here
token_here-Scans l some_byte =
    let c = peek l.cur 0 in
    let dots : (c == b'.' && peek l.cur 1 == b'.' && peek l.cur 2 == b'.') ≡ true
        → Scans l (scan_ellipsis l) =
      λ h.
        Scans-token l TokenType.ellipsis (utf8 "...") (advance (advance (advance l.cur)))
          (Moves-weaken (omega arith)
            (Moves-advance_thrice l.cur (lt-length_peek l.cur 2 (ground arith))))
          refl (dots-HasText l.cur h) in
    if_rule (Scans l) (is_prefix_letter c && is_string_prefix l.cur)
      (λ h. scan_string_prefix-Scans l (and_left _ _ h).1)
      λ _.
        if_rule (Scans l) (is_ident_start c) (λ h. scan_ident-Scans l h)
          λ _.
            if_rule (Scans l) (is_digit c) (λ h. scan_number-Scans l (ground arith))
              λ _.
                if_rule (Scans l) (is_quote c) (λ h. scan_string-Scans [] l h)
                  λ _.
                    if_rule (Scans l) (c == b'.' && peek l.cur 1 == b'.' && peek l.cur 2 == b'.')
                      (λ h. dots h)
                      λ _.
                        if_rule (Scans l) (c == b'.' && is_digit (peek l.cur 1))
                          (λ h. scan_number-Scans l (ground arith)) (λ _. scan_op-Scans l some_byte)

-- Where a byte is left.
pub lex_token-Scans : (l : Lexer) → 0 < length l.cur.rest → Scans l (lex_token l)
unfolding lex_token
lex_token-Scans l h = rw (index-inside l h) (token_here-Scans l h)
