-- ===== src/Parser/Stream.antt =====
-- How src/parser.rs goes through the stream of tokens that `lex_all` of src/fmt.rs gives: where it reports no
-- error, it stops at the last token.
use fly_lang.Diagnostic.{Diagnostic}
use fly_lang.Lexer.Invariant.Whole.{ty_eq-eof, eof-ty_eq}
use fly_lang.Lexer.Next.{next, next_after, lex_loop}
use fly_lang.Lexer.State.{Lexer, bare}
use fly_lang.Parser.Acts.{Feeds, AreReal}
use fly_lang.Parser.Monad.{Parser, P, pure, ◌>>=◌, go_on, choose, until, until_on, has_error}
use fly_lang.Prelude.{
  ℕ, zero, suc, Bool, true, false, ◌||◌, List, [], ◌∷◌, ◌++◌, Option, none, some, ◌≡◌, ◌≢◌, ◌⊎◌,
  inl, inr, subst, refl, sym, ap, ◌∙◌, Option-cases,
}
use fly_lang.Token.{TokenType, Token, ty_eq}

not_true : (b : Bool) → b ≢ true → b ≡ false
not_true true h = absurd (h refl)
not_true false h = refl

pub lex_loop_last :
    (fuel : ℕ) (l k : Lexer) (t : Token)
    → next l ≡ some (t, k)
    → t.ty ≡ TokenType.eof
    → lex_loop (suc fuel) l ≡ some (t ∷ [], k)
unfolding lex_loop
lex_loop_last fuel l k t n e = let last = eof-ty_eq t.ty e in rw (n, lex_loop) (rw last)

pub lex_loop_more :
    (fuel : ℕ) (l k : Lexer) (t : Token) (r : List Token) (m : Lexer)
    → next l ≡ some (t, k)
    → t.ty ≢ TokenType.eof
    → lex_loop (suc fuel) l ≡ some (r, m)
    → (ts : List Token) × (lex_loop fuel k ≡ some (ts, m)) × (r ≡ t ∷ ts)
unfolding lex_loop
lex_loop_more fuel l k t r m n e h =
    let more = not_true (ty_eq t.ty TokenType.eof) (λ i. e (ty_eq-eof t.ty i)) in
    elim (Option-cases (lex_loop fuel k)) [
      | inl i ↦ absurd (
          let gone : lex_loop (suc fuel) l ≡ none = rw (n, lex_loop) (rw more (rw i)) in
          cc (gone, h))
      | inr ((ts, m'), i) ↦
          let got : lex_loop (suc fuel) l ≡ some (t ∷ ts, m') = rw (n, lex_loop) (rw more (rw i)) in
          (ts, cc (got, h, i), cc (got, h))
    ]

-- `lex_loop` gives the tokens that the lexer feeds, up to the end of the file.
pub lex_loop-Feeds :
    (fuel : ℕ) (l : Lexer) (ts : List Token) (t : Token) (us : List Token) (l' : Lexer)
    (r : List Token) (m : Lexer)
    → lex_loop fuel l ≡ some (r, m)
    → Feeds l (ts ++ t ∷ us) l'
    → AreReal ts
    → t.ty ≡ TokenType.eof
    → (r ≡ ts ++ t ∷ []) × Feeds m us l'
unfolding lex_loop
lex_loop-Feeds zero l ts t us l' r m h f real e = cc
lex_loop-Feeds (suc fuel) l [] t us l' r m h (k, n, f) real e =
    let last = lex_loop_last fuel l k t n e in
    let same : k ≡ m = cc (last, h) in (cc (last, h), subst (λ (x : Lexer). Feeds x us l') same f)
lex_loop-Feeds (suc fuel) l (u ∷ ts) t us l' r m h (k, n, f) (not_eof, real) e =
    let (r', i, j) = lex_loop_more fuel l k u r m n not_eof h in
    let (i', f') = lex_loop-Feeds fuel k ts t us l' r' m i f real e in (cc (i', j), f')

next_err : (l : Lexer) (d : Diagnostic) → l.err ≡ some d → next l ≡ some (bare TokenType.eof l, l)
unfolding next next_after
next_err l d h = ap (λ (o : Option Diagnostic). next_after o l) h

-- An error of the lexer stays.
pub Feeds-err :
    (l : Lexer) (ts : List Token) (l' : Lexer) (d : Diagnostic)
    → Feeds l ts l'
    → l.err ≡ some d
    → l'.err ≡ some d
Feeds-err l [] l' d f h = ap (λ (x : Lexer). x.err) f ∙ h
Feeds-err l (t ∷ ts) l' d (m, n, f) h = Feeds-err m ts l' d f (cc (next_err l d h, n, h))

pub go_on_result :
    {A B : Type 0} (f : A → P B) (o : Option (A × Parser)) (r : B × Parser)
    → go_on f o ≡ some r
    → (x : A) × (p : Parser) × (o ≡ some (x, p)) × (f x p ≡ some r)
go_on_result f none r h = cc
go_on_result f (some (x, p)) r h = (x, p, refl, h)

pub bind_result :
    {A B : Type 0} (m : P A) (f : A → P B) (p : Parser) (y : B) (q : Parser)
    → (m >>= f) p ≡ some (y, q)
    → (x : A) × (p' : Parser) × (m p ≡ some (x, p')) × (f x p' ≡ some (y, q))
unfolding ◌>>=◌
bind_result m f p y q h = go_on_result f (m p) (y, q) h

pub choose_result :
    {A : Type 0} (b : Bool) (m k : P A) (p : Parser) (r : Option (A × Parser))
    → choose b m k p ≡ r
    → ((b ≡ true) × (m p ≡ r)) ⊎ ((b ≡ false) × (k p ≡ r))
choose_result true m k p r h = inl (refl, h)
choose_result false m k p r h = inr (refl, h)

-- A loop that ends at a token or at an error has reached one.
no_error_left : (b : Bool) (o : Option Diagnostic) → (b || has_error o) ≡ true → o ≡ none → b ≡ true
no_error_left true o h e = refl
no_error_left false none h e = h
no_error_left false (some d) h e = cc

until_on_ends :
    {S : Type 0} (body : S → P S) (test : TokenType → Bool) (k : ℕ) (s : S) (p : Parser) (s' : S)
    (p' : Parser)
    → until_on k test body s p ≡ some (s', p')
    → (test p'.tok.ty || has_error p'.err) ≡ true
unfolding until_on
until_on_ends body test zero s p s' p' h = cc
until_on_ends body test (suc k) s p s' p' h =
    elim (choose_result (test p.tok.ty || has_error p.err) (pure s)
      (body s >>= until_on k test body) p _ h) [
        | inl (e, i) ↦
            let same : p ≡ p' = cc in
            ap (λ (q : Parser). test q.tok.ty || has_error q.err) (sym same) ∙ e
        | inr (e, i) ↦
            let (x, q, j, j') = bind_result (body s) (until_on k test body) p s' p' i in
            until_on_ends body test k x q s' p' j'
      ]

pub until_ends :
    {S : Type 0} (body : S → P S) (test : TokenType → Bool) (s : S) (p : Parser) (s' : S)
    (p' : Parser)
    → until test body s p ≡ some (s', p')
    → p'.err ≡ none
    → test p'.tok.ty ≡ true
unfolding until
until_ends body test s p s' p' h e =
    no_error_left (test p'.tok.ty) p'.err (until_on_ends body test _ s p s' p' h) e
