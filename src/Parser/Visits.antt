-- ===== src/Parser/Visits.antt =====
-- How `next` and `peek` of src/parser.rs, the only ways of the parser to its lexer, go through the tokens that
-- `lex_all` of src/fmt.rs gives.
use fly_lang.Diagnostic.{Diagnostic}
use fly_lang.Lexer.Invariant.Whole.{ty_eq-eof, eof-ty_eq}
use fly_lang.Lexer.Next.{next, lex_loop, lex_all, enough}
use fly_lang.Lexer.State
use fly_lang.Lexer.State.{Lexer}
use fly_lang.Parser.Module.{at_start}
use fly_lang.Parser.Monad.{Parser, P, pure, ◌>>=◌, ◌>>◌, take, peek, this}
use fly_lang.Parser.Stream.{lex_loop_last, lex_loop_more}
use fly_lang.Prelude.{
  ℕ, zero, suc, ◌≤◌, Bool, true, false, length, Bytes, List, [], ◌∷◌, ◌++◌, Option, none, some,
  Option-cases, Bool-cases, inl, inr, ◌≡◌, ◌≢◌, refl, sym, ap, subst, ◌∙◌, arith,
}
use fly_lang.Token.{TokenType, Token, ty_eq}

-- The token ahead, where it is asked for, and the one that `next` then makes the current one.
unfoldable pub visit : Bool → P (List Token)
visit true = do u ← peek; take; t ← this; pure (u ∷ t ∷ [])
visit false = do take; t ← this; pure (t ∷ [])

-- Calls of `next`, each with a call of `peek` in front or none.
unfoldable pub visits : List Bool → P (List Token)
visits [] = pure []
visits (b ∷ bs) = do us ← visit b; vs ← visits bs; pure (us ++ vs)

-- The tokens of a stream in their order, each twice where it is asked for ahead.
abbrev pub seen : List Bool → List Token → List Token
seen [] ts = []
seen (b ∷ bs) [] = []
seen (true ∷ bs) (t ∷ ts) = t ∷ t ∷ seen bs ts
seen (false ∷ bs) (t ∷ ts) = t ∷ seen bs ts

-- The tokens `ts` are what the lexer gives up to the end of the file.
abbrev LexLeft : Lexer → List Token → Type 0
LexLeft l [] = Unit
LexLeft l (t ∷ ts) = (fuel : ℕ) × (m : Lexer) × (lex_loop fuel l ≡ some (t ∷ ts, m))

abbrev Left : Option Token → Lexer → List Token → Type 0
Left none l ts = LexLeft l ts
Left (some u) l [] = Unit
Left (some u) l (t ∷ ts) = (u ≡ t) × LexLeft l ts

to_LexLeft :
    (fuel : ℕ) (l m : Lexer) (ts : List Token) → lex_loop fuel l ≡ some (ts, m) → LexLeft l ts
to_LexLeft fuel l m [] h = tt
to_LexLeft fuel l m (t ∷ ts) h = (fuel, m, h)

lex_loop-none : (fuel : ℕ) (l : Lexer) → next l ≡ none → lex_loop fuel l ≡ none
unfolding lex_loop
lex_loop-none zero l h = refl
lex_loop-none (suc fuel) l h = rw (h, lex_loop) refl

next-LexLeft :
    (l : Lexer) (t : Token) (ts : List Token)
    → LexLeft l (t ∷ ts)
    → (k : Lexer) × (next l ≡ some (t, k)) × LexLeft k ts
unfolding lex_loop
next-LexLeft l t ts (zero, m, h) = absurd cc
next-LexLeft l t ts (suc fuel, m, h) = elim (Option-cases (next l)) [
  | inl gone ↦ absurd (let i = lex_loop-none (suc fuel) l gone in cc (i, h))
  | inr ((u, k), n) ↦ elim (Bool-cases (ty_eq u.ty TokenType.eof)) [
    | inl last ↦
        let i = lex_loop_last fuel l k u n (ty_eq-eof u.ty last) in
        let none_left : ts ≡ [] = cc (i, h) in
        (k, n ∙ cc (i, h), subst (LexLeft k) (sym none_left) tt)
    | inr more ↦
        let real : u.ty ≢ TokenType.eof = λ e. cc (eof-ty_eq u.ty e, more) in
        let (us, i, j) = lex_loop_more fuel l k u (t ∷ ts) m n real h in
        let same : us ≡ ts = cc j in
        (k, n ∙ cc j, subst (LexLeft k) same (to_LexLeft fuel k m us i))
  ]
]

-- A step from a state with the tokens `t ∷ ts` left.
abbrev Visits : Bool → Parser → Token → List Token → Type 0
Visits b p t ts =
    (p' : Parser) × (visit b p ≡ some (seen (b ∷ []) (t ∷ []), p')) × Left p'.peeked p'.lex ts

abbrev state : Lexer → Token → Option Token → Option Diagnostic → Parser
state l tok o e = record { lex = l; tok = tok; peeked = o; err = e }

visit-Left :
    (b : Bool) (l : Lexer) (tok : Token) (o : Option Token) (e : Option Diagnostic) (t : Token)
    (ts : List Token)
    → Left o l (t ∷ ts)
    → Visits b (state l tok o e) t ts
unfolding visit peek take this ◌>>=◌
visit-Left true l tok (some u) e t ts (same, left) =
    (state l u none e, ap (λ (x : Token). some (x ∷ x ∷ [], state l u none e)) same, left)
visit-Left false l tok (some u) e t ts (same, left) =
    (state l u none e, ap (λ (x : Token). some (x ∷ [], state l u none e)) same, left)
visit-Left true l tok none e t ts left =
    let (k, n, rest) = next-LexLeft l t ts left in (state k t none e, rw n refl, rest)
visit-Left false l tok none e t ts left =
    let (k, n, rest) = next-LexLeft l t ts left in (state k t none e, rw n refl, rest)

one_more :
    (b : Bool) (bs : List Bool) (t : Token) (ts : List Token)
    → seen (b ∷ []) (t ∷ []) ++ seen bs ts ≡ seen (b ∷ bs) (t ∷ ts)
one_more true bs t ts = refl
one_more false bs t ts = refl

visits-seen :
    (bs : List Bool) (ts : List Token) (p : Parser)
    → length bs ≤ length ts
    → Left p.peeked p.lex ts
    → (p' : Parser) × (visits bs p ≡ some (seen bs ts, p'))
unfolding visits ◌>>=◌
visits-seen [] ts p h left = (p, refl)
visits-seen (b ∷ bs) [] p h left = absurd (omega (arith, h))
visits-seen (b ∷ bs) (t ∷ ts) p h left =
    let (q, i, left') = visit-Left b p.lex p.tok p.peeked p.err t ts left in
    let (r, j) = visits-seen bs ts q (omega (arith, h)) left' in
    (
      r,
      rw (i, visits) (rw (j, visits) (ap (λ (us : List Token). some (us, r)) (one_more b bs t ts))),
    )

-- From the state in which a parser is made, any number of calls of `next`, with a call of `peek` in front of any of
-- them, up to the length of the stream that `lex_all` gives: they show the tokens of that stream, in its order, none
-- left out and none twice, and `peek` shows the token that the `next` behind it makes the current one.
pub visits-lex_all :
    (src : Bytes) (ts : List Token) (l : Lexer) (bs : List Bool)
    → lex_all src ≡ some (ts, l)
    → length bs ≤ length ts
    → (p : Parser) × (visits bs (at_start src) ≡ some (seen bs ts, p))
unfolding lex_all
visits-lex_all src ts l bs h fits =
    visits-seen bs ts (at_start src) fits (to_LexLeft (enough (length src)) (State.new src) l ts h)
