-- ===== src/Parser/Whole.antt =====
-- What `parse` of src/parser.rs promises, for every source and every arithmetic of `f64`.
use fly_lang.Ast.{Stmt, Module}
use fly_lang.Diagnostic.{Position, Diagnostic}
use fly_lang.Lexer.Invariant.{IsSound}
use fly_lang.Lexer.Invariant.Whole.{ty_eq-eof}
use fly_lang.Lexer.Next.{lex_all}
use fly_lang.Lexer.State
use fly_lang.Lexer.State.{Lexer}
use fly_lang.Lexer.Stream.{lex_all_total}
use fly_lang.Parser.Acts.{still, To, Feeds, AreReal, ahead_of}
use fly_lang.Parser.Blocks.{statement}
use fly_lang.Parser.Module.{
  level, at_start, new, statements, parse_module, parse_state, parse, outcome, found_error, or_else,
}
use fly_lang.Parser.Monad.{Parser, pure, ◌>>=◌, this, is_token, has_error, size}
use fly_lang.Parser.Specs.{F64}
use fly_lang.Parser.Stream.{
  lex_loop-Feeds, Feeds-err, go_on_result, bind_result, choose_result, until_ends,
}
use fly_lang.Parser.Total.Module.{parse_state-Runs, not_illegal, level-Good}
use fly_lang.Parser.Total.Blocks.{statement-Acts}
use fly_lang.Prelude.{
  ℕ, ◌≤◌, ◌<◌, arith, true, false, Bytes, List, [], ◌∷◌, ◌++◌, Option, none, some, ◌≡◌, ◌≢◌, ◌⊎◌,
  inl, inr, refl, sym, ap, subst, ◌∙◌, Option-cases,
}
use fly_lang.Token.{TokenType, Token, pos}

-- A module, whose place is that of the last token.
abbrev IsModule : Option Module → Position → Type 0
IsModule m at = (x : Module) × (m ≡ some x) × (x.pos ≡ at)

found_none : (o q : Option Diagnostic) → or_else o q ≡ none → (o ≡ none) × (q ≡ none)
found_none none q h = (refl, h)
found_none (some d) q h = cc

found_some : (o q : Option Diagnostic) → q ≢ none → or_else o q ≢ none
found_some none q h = h
found_some (some d) q h = λ e. cc

ty_is_eof : (t : TokenType) → is_token TokenType.eof t ≡ true → t ≡ TokenType.eof
unfolding is_token
ty_is_eof t h = ty_eq-eof t h

-- What a module that is parsed with no error comes from.
parse_module_end :
    (f : F64) (p : Parser) (m : Option Module) (p' : Parser)
    → parse_module f p ≡ some (m, p')
    → p'.err ≡ none
    → p'.lex.err ≡ none
    → IsModule m (pos p'.tok) × (p'.tok.ty ≡ TokenType.eof)
unfolding parse_module statements this ◌>>=◌
parse_module_end f p m p' h e le = elim (choose_result (has_error p.lex.err) (pure none) _ p _ h) [
  | inl (b, i) ↦
      let same : p ≡ p' = cc in
      let clear : has_error p.lex.err ≡ false =
        ap has_error (ap (λ (q : Parser). q.lex.err) same ∙ le) in
      absurd cc
  | inr (b, i) ↦
      let (ss, q, j, j') = bind_result (statements f) _ p m p' i in
      let same : q ≡ p' = cc in
      let ends = until_ends _ _ _ p ss q j (ap (λ (q : Parser). q.err) same ∙ e) in
      (
        (record { pos = pos q.tok; stmts = ss }, cc, ap (λ (q : Parser). pos q.tok) same),
        ap (λ (q : Parser). q.tok.ty) (sym same) ∙ ty_is_eof q.tok.ty ends,
      )
]

error_left : (o : Option Diagnostic) → has_error o ≡ true → o ≢ none
error_left none h = λ _. cc
error_left (some d) h = λ e. cc

module_or_error :
    (f : F64) (p : Parser) (m : Option Module) (p' : Parser)
    → parse_module f p ≡ some (m, p')
    → (m ≢ none) ⊎ (p'.lex.err ≢ none)
unfolding parse_module this ◌>>=◌
module_or_error f p m p' h = elim (choose_result (has_error p.lex.err) (pure none) _ p _ h) [
  | inl (b, i) ↦
      let same : p ≡ p' = cc in
      inr (subst (λ (q : Parser). q.lex.err ≢ none) same (error_left p.lex.err b))
  | inr (b, i) ↦
      let (ss, q, j, j') = bind_result (statements f) _ p m p' i in inl (λ gone. cc (gone, j'))
]

outcome_said :
    (f : F64) (src : Bytes) (m : Option Module) (p : Parser)
    → parse_state f src ≡ some (m, p)
    → (m ≢ none) ⊎ (found_error p ≢ none)
unfolding parse_state
outcome_said f src m p e =
    let (u, q, i, j) = go_on_result (λ _. parse_module f) (new src) (m, p) e in
    elim (module_or_error f q m p j) [
      | inl said ↦ inl said
      | inr failed ↦ inr (found_some p.err p.lex.err failed)
    ]

-- `parse` returns for every source, with a module or with an error.
pub parse_total :
    (f : F64) (src : Bytes)
    → (m : Option Module) × (e : Option Diagnostic) × (parse f src ≡ some (m, e))
      × ((m ≢ none) ⊎ (e ≢ none))
unfolding parse outcome
parse_total f src =
    let (m, p, e, to) = parse_state-Runs f src in
    (m, found_error p, ap outcome e, outcome_said f src m p e)

-- `lex_all` gives tokens that end in `last`, and reports no error, and the module
-- stands where `last` stands.
pub record ReadsAll (src : Bytes) (m : Option Module) : Type 0 where
  pub tokens : List Token
  pub last : Token
  pub lexer : Lexer
  pub lexed : lex_all src ≡ some (tokens ++ last ∷ [], lexer)
  pub no_error : lexer.err ≡ none
  pub ends : last.ty ≡ TokenType.eof
  pub at_end : IsModule m (pos last)

-- What is passed from the start on begins with the token that is there before the first is read.
behind_start :
    (passed fed rest : List Token) (t u : Token)
    → t ∷ fed ≡ passed ++ u ∷ rest
    → t.ty ≢ u.ty
    → AreReal passed
    → (ts : List Token) × (fed ≡ ts ++ u ∷ rest) × AreReal ts
behind_start [] fed rest t u h n real =
    absurd (let same : t ≡ u = cc in n (ap (λ (x : Token). x.ty) same))
behind_start (x ∷ ts) fed rest t u h n (r, real) = (ts, cc, real)

reads_end :
    (src : Bytes) (m : Option Module) (p : Parser)
    → To still (at_start src) p
    → p.tok.ty ≡ TokenType.eof
    → p.lex.err ≡ none
    → IsModule m (pos p.tok)
    → ReadsAll src m
unfolding lex_all
reads_end src m p to e le at =
    let reads = to.reads in
    let (ts, fed, real) =
      behind_start reads.passed reads.fed (ahead_of p.peeked) (at_start src).tok p.tok reads.order
        (λ i. not_illegal (i ∙ e)) reads.real in
    let (r, i, _, _) = lex_all_total src in
    let (same, left) =
      lex_loop-Feeds _ (State.new src) ts p.tok (ahead_of p.peeked) p.lex r.0 r.1 i
        (subst (λ (us : List Token). Feeds (State.new src) us p.lex) fed reads.feeds) real e in
    let clear : r.1.err ≡ none = elim (Option-cases r.1.err) [
      | inl c ↦ c
      | inr (d, c) ↦ absurd (let kept = Feeds-err r.1 _ p.lex d left c in cc (kept, le))
    ] in
    record {
      tokens = ts;
      last = p.tok;
      lexer = r.1;
      lexed = i ∙ ap (λ (us : List Token). some (us, r.1)) same;
      no_error = clear;
      ends = e;
      at_end = at;
    }

-- Where `parse` reports no error, `lex_all` gives a stream that ends in an end of the file, with no error either, and
-- `parse` gives a module, which stands at that end.
pub parse-ReadsAll :
    (f : F64) (src : Bytes) (m : Option Module) → parse f src ≡ some (m, none) → ReadsAll src m
unfolding parse parse_state outcome
parse-ReadsAll f src m h =
    let (m', p, e, to) = parse_state-Runs f src in
    let gave : some (m', found_error p) ≡ some (m, none) = sym (ap outcome e) ∙ h in
    let same : m' ≡ m = cc gave in
    let (clear, lex_clear) = found_none p.err p.lex.err (cc gave) in
    let (u, q, i, j) = go_on_result (λ _. parse_module f) (new src) (m', p) e in
    let (at, ends) = parse_module_end f q m' p j clear lex_clear in
    subst (λ (x : Option Module). ReadsAll src x) same (reads_end src m' p to ends lex_clear at)

-- Where `lex_all` reports an error, `parse` reports one too.
pub parse_lex_error :
    (f : F64) (src : Bytes) (ts : List Token) (l : Lexer)
    → lex_all src ≡ some (ts, l)
    → l.err ≢ none
    → (m : Option Module) × (d : Diagnostic) × (parse f src ≡ some (m, some d))
parse_lex_error f src ts l h failed =
    let (m, e, i, _) = parse_total f src in
    elim (Option-cases e) [
      | inl clear ↦
          let all =
            parse-ReadsAll f src m (i ∙ ap (λ (o : Option Diagnostic). some (m, o)) clear) in
          absurd (
            let there = all.lexed in
            let same : all.lexer ≡ l = cc (there, h) in
            failed (ap (λ (x : Lexer). x.err) (sym same) ∙ all.no_error))
      | inr (d, said) ↦ (m, d, i ∙ ap (λ (o : Option Diagnostic). some (m, o)) said)
    ]

-- Where the lexer's queue and its stack of indentations are sound and at most `n` tokens are left, `statement`
-- returns with `n` levels of calls, and it has read a token or an error is reported.
pub statement_progress :
    (f : F64) (n : ℕ) (p : Parser)
    → IsSound p.lex
    → size p ≤ n
    → (o : Option Stmt) × (p' : Parser) × (statement f (level f n) p ≡ some (o, p'))
      × ((size p' < size p) ⊎ (p'.err ≢ none))
statement_progress f n p s l =
    let (o, p', e, to) = (statement-Acts f (level-Good f n)).runs p (s, omega (arith, l)) in
    (o, p', e, to.gain)

-- Under the same conditions, an error that is reported before a statement is the one reported after it.
pub statement_first_error :
    (f : F64) (n : ℕ) (p : Parser) (d : Diagnostic)
    → IsSound p.lex
    → size p ≤ n
    → p.err ≡ some d
    → (o : Option Stmt) × (p' : Parser) × (statement f (level f n) p ≡ some (o, p'))
      × (p'.err ≡ some d)
statement_first_error f n p d s l h =
    let (o, p', e, to) = (statement-Acts f (level-Good f n)).runs p (s, omega (arith, l)) in
    (o, p', e, to.first d h)
