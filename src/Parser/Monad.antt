-- ===== src/Parser/Monad.antt =====
-- src/parser.rs: the state `Parser`, what reads and writes it (`next`, `peek`, `errorf`, `expect`), and
-- the tests and loops over the current token.
use fly_lang.Diagnostic.{Position, Diagnostic, error_code}
use fly_lang.Diagnostic.Format.{format_msg}
use fly_lang.Lexer.Invariant.{budget}
use fly_lang.Lexer.Next.{Result, next}
use fly_lang.Lexer.State.{Lexer}
use fly_lang.Prelude.{
  ℕ, zero, suc, Bool, true, false, ◌||◌, Bytes, utf8, List, [], ◌++◌, Option, none, some,
}
use fly_lang.Token.{TokenType, Token, ty_eq, name, pos}

pub record Parser : Type 0 where
  pub lex : Lexer
  pub tok : Token
  pub peeked : Option Token
  pub err : Option Diagnostic

-- A method of the parser; `none` is a call that fuel does not reach.
abbrev pub P : Type 0 → Type 0
P A = Parser → Option (A × Parser)

abbrev pub pure : {A : Type 0} → A → P A
pure a p = some (a, p)

abbrev pub go_on : {A B : Type 0} → (A → P B) → Option (A × Parser) → Option (B × Parser)
go_on f none = none
go_on f (some (a, p)) = f a p

infixl 5 ◌>>=◌ ◌>>◌
unfoldable pub ◌>>=◌ : {A B : Type 0} → P A → (A → P B) → P B
◌>>=◌ m f p = go_on f (m p)

abbrev pub ◌>>◌ : {A B : Type 0} → P A → P B → P B
m >> k = m >>= λ _. k

-- The token that the lexer gives, as the current one.
abbrev pub current : Parser → Option Result → Option (Unit {0} × Parser)
current p none = none
current p (some (t, l)) = some (tt, record p { lex = l; tok = t })

-- `next`
abbrev pub next_on : Option Token → Parser → Option (Unit {0} × Parser)
next_on (some t) p = some (tt, record p { tok = t; peeked = none })
next_on none p = current p (next p.lex)

-- `let t = self.tok.clone(); self.next();`
unfoldable pub take : P Token
take p = (next_on p.peeked >>= λ _. pure p.tok) p

abbrev pub ahead : Parser → Option Result → Option (Token × Parser)
ahead p none = none
ahead p (some (t, l)) = some (t, record p { lex = l; peeked = some t })

abbrev pub peek_on : Option Token → P Token
peek_on (some t) p = some (t, p)
peek_on none p = ahead p (next p.lex)

unfoldable pub peek : P Token
peek p = peek_on p.peeked p

abbrev pub first_error : Option Diagnostic → Diagnostic → Diagnostic
first_error none d = d
first_error (some e) d = e

unfoldable pub report : Diagnostic → P (Unit {0})
report d p = some (tt, record p { err = some (first_error p.err d) })

unfoldable pub errorf : Position → Bytes → List Bytes → P (Unit {0})
errorf at format args =
    report (record { pos = at; code = error_code format; msg = format_msg format args })

-- The current token.
unfoldable pub this : P Token
this p = some (p.tok, p)

unfoldable pub is_token : TokenType → TokenType → Bool
is_token ty t = ty_eq t ty

abbrev pub choose : {A : Type 0} → Bool → P A → P A → P A
choose true m k p = m p
choose false m k p = k p

unfoldable pub when_tok : {A : Type 0} → (TokenType → Bool) → P A → P A → P A
when_tok test m k p = choose (test p.tok.ty) m k p

unfoldable pub branch : {A : Type 0} → Bool → P A → P A → P A
branch b m k p = choose b m k p

-- `if test(self.tok.ty) { let t = self.tok.clone(); self.next(); .. } else { .. }`
unfoldable pub case_tok : {A : Type 0} → (TokenType → Bool) → (Token → P A) → P A → P A
case_tok test f k = when_tok test (take >>= f) k

abbrev pub unexpected : TokenType → Token → Diagnostic
unexpected ty t = record {
  pos = pos t;
  code = error_code (utf8 "期望 %s，实际为 %s");
  msg = utf8 "期望 " ++ (name ty ++ (utf8 "，实际为 " ++ t.lit));
}

abbrev pub illegal_for : Token → Token
illegal_for t = record { ty = TokenType.illegal; lit = []; line = t.line; col = t.col }

unfoldable pub expect : TokenType → P Token
expect ty =
    case_tok (is_token ty) pure (do t ← this; report (unexpected ty t); pure (illegal_for t))

abbrev pub size_at : TokenType → ℕ → ℕ
size_at TokenType.eof n = 0
size_at _ n = suc n

abbrev pub size_ahead : Option Token → ℕ → ℕ
size_ahead none n = n
size_ahead (some t) n = size_at t.ty n

-- A bound on the tokens that are left.
abbrev pub size : Parser → ℕ
size p = size_at p.tok.ty (size_ahead p.peeked (budget p.lex))

-- A turn of a loop goes on or leaves the loop.
pub data Go (S : Type 0) : Type 0 where
  more : S → Go S
  stop : S → Go S

abbrev pub after_turn : {S : Type 0} → (S → P S) → Go S → P S
after_turn again (more s) = again s
after_turn again (stop s) = pure s

unfoldable pub repeat_on : {S : Type 0} → ℕ → (S → P (Go S)) → S → P S
repeat_on zero body s p = none
repeat_on (suc k) body s p = (body s >>= after_turn (repeat_on k body)) p

-- A loop each of whose turns reads a token, if it goes on.
unfoldable pub repeat : {S : Type 0} → (S → P (Go S)) → S → P S
repeat body s p = repeat_on (suc (size p)) body s p

abbrev pub has_error : Option Diagnostic → Bool
has_error none = false
has_error (some d) = true

-- A loop that ends at a token or at an error.
unfoldable pub until_on : {S : Type 0} → ℕ → (TokenType → Bool) → (S → P S) → S → P S
until_on zero test body s p = none
until_on (suc k) test body s p =
    choose (test p.tok.ty || has_error p.err) (pure s) (body s >>= until_on k test body) p

unfoldable pub until : {S : Type 0} → (TokenType → Bool) → (S → P S) → S → P S
until test body s p = until_on (suc (suc (size p))) test body s p
