-- ===== src/Parser/Tokens.antt =====
-- What `next`, `peek`, `errorf`, `expect` and the tests of the current token do, of src/parser.rs.
use fly_lang.Diagnostic.{Position, Diagnostic}
use fly_lang.Lexer.Invariant.{IsSound, budget}
use fly_lang.Lexer.Invariant.Next.{next-Emits}
use fly_lang.Parser.Acts.{
  Gain, still, onward, strict, To, To-refl, ahead_of, Below, Runs, ActsBy, Acts, bind-Runs,
  Below-strict,
}
use fly_lang.Parser.Monad.{
  Parser, P, pure, ◌>>=◌, go_on, choose, next_on, current, ahead, peek_on, take, peek, first_error,
  report, errorf, this, when_tok, case_tok, size, size_at, size_ahead,
}
use fly_lang.Prelude.{
  ℕ, suc, ◌≤◌, ◌<◌, Bool, true, false, Bytes, List, Option, none, some, ◌≡◌, ◌≢◌, ◌⊎◌, inl, inr,
  refl, sym, ap, subst, ◌∙◌, arith, [], ◌∷◌, ◌++◌, append-nil,
}
use fly_lang.Token.{TokenType, Token}

size_at_most : (t : TokenType) (n : ℕ) → size_at t n ≤ suc n
size_at_most TokenType.eof n = omega arith
size_at_most t n = omega arith

size_at-le : (t : TokenType) (m n : ℕ) → (t ≡ TokenType.eof) ⊎ (m < n) → size_at t m ≤ n
size_at-le t m n (inl e) = subst (λ (u : TokenType). size_at u m ≤ n) (sym e) (omega arith)
size_at-le t m n (inr l) = omega (arith, l, size_at_most t m)

size_at-suc : (t : TokenType) (n : ℕ) → t ≢ TokenType.eof → size_at t n ≡ suc n
size_at-suc TokenType.eof n h = absurd (h refl)
size_at-suc t n h = refl

size_at_mono : (t : TokenType) (m n : ℕ) → m ≤ n → size_at t m ≤ size_at t n
size_at_mono TokenType.eof m n h = omega arith
size_at_mono t m n h = omega (arith, h)

-- Reading on from a token that is not the last.
pub next_on-Runs :
    (o : Option Token) (p : Parser)
    → p.peeked ≡ o
    → IsSound p.lex
    → p.tok.ty ≢ TokenType.eof
    → Runs {A = Unit {0}} (λ _. strict) p (next_on o p)
next_on-Runs (some t) p e s h =
    let here = size_at-suc p.tok.ty (size_ahead p.peeked (budget p.lex)) h in
    let less : size (record p { tok = t; peeked = none }) < size p =
      let read = ap (λ (o : Option Token). size_ahead o (budget p.lex)) e in
      omega (arith, here, read) in
    (
      tt,
      record p { tok = t; peeked = none },
      refl,
      record {
        sound = s;
        less = omega (arith, less);
        gain = less;
        keeps = λ k. k;
        first = λ d k. k;
        reads = record {
          passed = p.tok ∷ [];
          fed = [];
          feeds = refl;
          real = (h, tt);
          order = append-nil _ ∙ ap (λ (o : Option Token). p.tok ∷ ahead_of o) e;
        };
      },
    )
next_on-Runs none p e s h =
    let (q, e', em) = next-Emits p.lex s in
    let here = size_at-suc p.tok.ty (size_ahead p.peeked (budget p.lex)) h in
    let p' = record p { lex = q.1; tok = q.0 } in
    let less : size p' < size p =
      let read = ap (λ (o : Option Token). size_ahead o (budget p.lex)) e in
      let left = ap (λ (o : Option Token). size_at q.0.ty (size_ahead o (budget q.1))) e in
      omega (arith, here, read, left, size_at-le q.0.ty (budget q.1) (budget p.lex) em.cost) in
    (
      tt,
      p',
      ap (current p) e',
      record {
        sound = em.sound;
        less = omega (arith, less);
        gain = less;
        keeps = λ k. k;
        first = λ d k. k;
        reads = record {
          passed = p.tok ∷ [];
          fed = q.0 ∷ [];
          feeds = (q.1, e', refl);
          real = (h, tt);
          order =
              ap (λ (o : Option Token). p.tok ∷ (ahead_of o ++ (q.0 ∷ []))) e
              ∙ ap (λ (o : Option Token). p.tok ∷ q.0 ∷ ahead_of o) (sym e);
        };
      },
    )

take-Runs :
    {n : ℕ} (p : Parser) → Below n p → p.tok.ty ≢ TokenType.eof → Runs (λ _. strict) p (take p)
unfolding take ◌>>=◌
take-Runs {n} p b h =
    let (u, p', e, to) = next_on-Runs p.peeked p refl b.0 h in
    (p.tok, p', ap (go_on (λ _. pure p.tok)) e, to)

peek_on-Runs :
    (o : Option Token) (p : Parser)
    → p.peeked ≡ o
    → IsSound p.lex
    → Runs (λ _. still) p (peek_on o p)
peek_on-Runs (some t) p e s = (t, p, refl, To-refl s)
peek_on-Runs none p e s =
    let (q, e', em) = next-Emits p.lex s in
    let p' = record p { lex = q.1; peeked = some q.0 } in
    let read = ap (λ (o : Option Token). size_at p.tok.ty (size_ahead o (budget p.lex))) e in
    let less : size p' ≤ size p = omega (
      arith,
      read,
      size_at_mono p.tok.ty _ _ (size_at-le q.0.ty (budget q.1) (budget p.lex) em.cost),
    ) in
    (
      q.0,
      p',
      ap (ahead p) e',
      record {
        sound = em.sound;
        less = less;
        gain = tt;
        keeps = λ k. k;
        first = λ d k. k;
        reads = record {
          passed = [];
          fed = q.0 ∷ [];
          feeds = (q.1, e', refl);
          real = tt;
          order = ap (λ (o : Option Token). p.tok ∷ (ahead_of o ++ (q.0 ∷ []))) e;
        };
      },
    )

pub peek-Acts : {n : ℕ} → Acts still n peek
unfolding peek
peek-Acts = record { runs = λ p b. peek_on-Runs p.peeked p refl b.0 }

pub this-Acts : {n : ℕ} → Acts still n this
unfolding this
this-Acts = record { runs = λ p b. (p.tok, p, refl, To-refl b.0) }

some_error : (o : Option Diagnostic) (d : Diagnostic) → some (first_error o d) ≢ none
some_error o d e = cc

pub report-Acts : {n : ℕ} (d : Diagnostic) → Acts onward n (report d)
unfolding report
report-Acts d = record {
  runs = λ p b. (
    tt,
    record p { err = some (first_error p.err d) },
    refl,
    record {
      sound = b.0;
      less = omega arith;
      gain = inr (some_error p.err d);
      keeps = λ _. some_error p.err d;
      first = λ d' e. ap (λ (o : Option Diagnostic). some (first_error o d)) e;
      reads = record { passed = []; fed = []; feeds = refl; real = tt; order = append-nil _ };
    },
  );
}

pub errorf-Acts :
    {n : ℕ} (at : Position) (f : Bytes) (args : List Bytes) → Acts onward n (errorf at f args)
unfolding errorf
errorf-Acts at f args = report-Acts _

pub choose-Runs :
    {A : Type 0} (g : A → Gain) (b : Bool) (m k : P A) (p : Parser)
    → (b ≡ true → Runs g p (m p))
    → (b ≡ false → Runs g p (k p))
    → Runs g p (choose b m k p)
choose-Runs g true m k p h i = h refl
choose-Runs g false m k p h i = i refl

pub when-Acts :
    {A : Type 0} {g : A → Gain} {n : ℕ} {m k : P A} (test : TokenType → Bool)
    → ActsBy g n m
    → ActsBy g n k
    → ActsBy g n (when_tok test m k)
unfolding when_tok
when-Acts {A} {g} {n} {m} {k} test a b = record {
  runs = λ p c. choose-Runs g (test p.tok.ty) m k p (λ _. a.runs p c) (λ _. b.runs p c);
}

-- A test that the end of the file does not pass.
abbrev pub IsReal : (TokenType → Bool) → Type 0
IsReal test = test TokenType.eof ≡ false

not_eof :
    (test : TokenType → Bool) (t : TokenType) → IsReal test → test t ≡ true → t ≢ TokenType.eof
not_eof test t r h e = let same = ap test e in cc (r, h, same)

taken-Runs :
    {A : Type 0} {n : ℕ} {f : Token → P A} (p : Parser)
    → Below (suc n) p
    → p.tok.ty ≢ TokenType.eof
    → ((t : Token) → Acts still n (f t))
    → Runs (λ _. strict) p ((take >>= f) p)
taken-Runs {A} {n} {f} p b h k =
    bind-Runs take f strict (λ _. still) p (take-Runs p b h)
      (λ t p' to. (k t).runs p' (Below-strict b to))

pub To-strict : (g : Gain) {p p' : Parser} → To strict p p' → To g p p'
To-strict still {p} {p'} t = record {
  sound = t.sound;
  less = t.less;
  gain = tt;
  keeps = t.keeps;
  first = t.first;
  reads = t.reads;
}
To-strict onward {p} {p'} t = record {
  sound = t.sound;
  less = t.less;
  gain = inl t.gain;
  keeps = t.keeps;
  first = t.first;
  reads = t.reads;
}
To-strict strict {p} {p'} t = t

-- What reads a token gains whatever is asked for.
pub Runs-strict :
    {A : Type 0} (g : A → Gain) (p : Parser) (o : Option (A × Parser))
    → Runs (λ _. strict) p o
    → Runs g p o
Runs-strict g p o (x, p', e, to) = (x, p', e, To-strict (g x) to)

-- A token that passes is read; behind it the states are below `n`.
pub case-Acts :
    {A : Type 0} {n : ℕ} {g : A → Gain} {f : Token → P A} {k : P A} (test : TokenType → Bool)
    → IsReal test
    → ((t : Token) → Acts still n (f t))
    → ActsBy g (suc n) k
    → ActsBy g (suc n) (case_tok test f k)
unfolding case_tok when_tok
case-Acts {A} {n} {g} {f} {k} test r a b = record {
  runs = λ p c.
      choose-Runs g (test p.tok.ty) (take >>= f) k p
        (λ h. Runs-strict g p _ (taken-Runs p c (not_eof test p.tok.ty r h) a)) (λ _. b.runs p c);
}
