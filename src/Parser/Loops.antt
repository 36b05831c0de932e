-- ===== src/Parser/Loops.antt =====
-- The loops of src/parser.rs end: each turn of one reads a token, unless it leaves the loop or reports an error.
use fly_lang.Diagnostic.{Diagnostic}
use fly_lang.Parser.Acts.{
  still, onward, To, To-refl, To-trans, To-still, Runs-still, Below, Below-To, Runs, Acts, Turns,
  gain_of, bind-Runs,
}
use fly_lang.Parser.Monad.{
  Parser, P, pure, ◌>>=◌, go_on, size, Go, more, stop, after_turn, repeat, repeat_on, until,
  until_on, has_error,
}
use fly_lang.Parser.Tokens.{choose-Runs}
use fly_lang.Prelude.{
  ℕ, zero, suc, ◌<◌, Bool, true, false, ◌||◌, Option, none, some, ◌≡◌, ◌≢◌, ◌⊎◌, inl, inr, refl, ap,
  ◌∙◌, arith,
}
use fly_lang.Token.{TokenType}

-- What is left after a turn is left to fewer turns.
turn-Runs :
    {S : Type 0} {n k : ℕ} (again : S → P S) (x : Go S) (p p' : Parser)
    → Below n p
    → size p < suc k
    → To (gain_of x) p p'
    → ((s : S) (q : Parser) → Below n q → size q < k → Runs (λ _. still) q (again s q))
    → Runs (λ _. still) p (after_turn again x p')
turn-Runs {S} {n} {k} again (more s) p p' b h to f =
    let (y, q, e, to') = f s p' (Below-To b to) (omega (arith, h, to.gain)) in
    (y, q, e, To-still (To-trans to to'))
turn-Runs {S} {n} {k} again (stop s) p p' b h to f = (s, p', refl, to)

repeat_on-Runs :
    {S : Type 0} {n : ℕ} {body : S → P (Go S)} (k : ℕ) (s : S) (p : Parser)
    → ((s : S) → Turns n (body s))
    → Below n p
    → size p < k
    → Runs (λ _. still) p (repeat_on k body s p)
unfolding repeat_on ◌>>=◌
repeat_on-Runs zero s p t b h = absurd (omega (arith, h))
repeat_on-Runs {S} {n} {body} (suc k) s p t b h =
    let (x, p', e, to) = (t s).runs p b in
    let (y, q, e', to') =
      turn-Runs (repeat_on k body) x p p' b h to (λ s q b' h'. repeat_on-Runs k s q t b' h') in
    (y, q, ap (go_on (after_turn (repeat_on k body))) e ∙ e', to')

pub repeat-Acts :
    {S : Type 0} {n : ℕ} {body : S → P (Go S)} (s : S)
    → ((s : S) → Turns n (body s))
    → Acts still n (repeat body s)
unfolding repeat
repeat-Acts {S} {n} {body} s t = record {
  runs = λ p b. repeat_on-Runs (suc (size p)) s p t b (omega arith);
}

-- Enough turns are left, or an error ends the loop.
abbrev HasTurns : ℕ → Parser → Type 0
HasTurns k p = (suc (size p) < k) ⊎ ((p.err ≢ none) × (zero < k))

has_error-eq : (o : Option Diagnostic) → o ≢ none → has_error o ≡ true
has_error-eq none h = absurd (h refl)
has_error-eq (some d) h = refl

turns_left :
    {k : ℕ} {p p' : Parser} → HasTurns (suc k) p → p.err ≡ none → To onward p p' → HasTurns k p'
turns_left {k} {p} {p'} (inl l) e to = elim to.gain [
  | inl g ↦ inl (omega (arith, l, g))
  | inr e' ↦ inr (e', omega (arith, l))
]
turns_left {k} {p} {p'} (inr f) e to = absurd (f.0 e)

no_error : (o : Option Diagnostic) (b : Bool) → (b || has_error o) ≡ false → o ≡ none
no_error none b h = refl
no_error (some d) true h = cc
no_error (some d) false h = cc

until_on-Runs :
    {S : Type 0} {n : ℕ} {body : S → P S} (test : TokenType → Bool) (k : ℕ) (s : S) (p : Parser)
    → ((s : S) → Acts onward n (body s))
    → Below n p
    → HasTurns k p
    → Runs (λ _. still) p (until_on k test body s p)
unfolding until_on ◌>>=◌
until_on-Runs test zero s p a b h = elim h [
  | inl l ↦ absurd (omega (arith, l))
  | inr f ↦ absurd (omega (arith, f.1))
]
until_on-Runs {S} {n} {body} test (suc k) s p a b h =
    choose-Runs (λ _. still) (test p.tok.ty || has_error p.err) (pure s)
      (body s >>= until_on k test body) p (λ _. (s, p, refl, To-refl b.0))
      (λ e. Runs-still (
        bind-Runs (body s) (until_on k test body) onward (λ _. still) p ((a s).runs p b)
          (λ s' p' to.
            until_on-Runs test k s' p' a (Below-To b to)
              (turns_left h (no_error p.err (test p.tok.ty) e) to))))

pub until-Acts :
    {S : Type 0} {n : ℕ} {body : S → P S} (s : S) (test : TokenType → Bool)
    → ((s : S) → Acts onward n (body s))
    → Acts still n (until test body s)
unfolding until
until-Acts {S} {n} {body} s test a = record {
  runs = λ p b. until_on-Runs test (suc (suc (size p))) s p a b (inl (omega arith));
}
