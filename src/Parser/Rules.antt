-- ===== src/Parser/Rules.antt =====
-- The rules by which a method of src/parser.rs is shown to act: one for each way to compose methods.
use fly_lang.Diagnostic.{Position}
use fly_lang.Parser.Acts.{
  Gain, still, onward, strict, lower-Acts, zero-Acts, Below, Runs, ActsBy, Acts, Turns, gain_of,
  pure-Acts, bind-Acts, bind-Turns, stop-Turns, weaken-Acts,
}
use fly_lang.Parser.Loops.{repeat-Acts, until-Acts}
use fly_lang.Parser.Monad.{P, ◌>>=◌, errorf, case_tok, is_token, expect, branch}
use fly_lang.Parser.Tokens.{
  IsReal, case-Acts, when-Acts, report-Acts, errorf-Acts, this-Acts, peek-Acts,
}
use fly_lang.Prelude.{ℕ, zero, suc, ◌≤◌, arith, Bool, true, false, Bytes, List, ◌≡◌, refl}
use fly_lang.Token.{TokenType, Token}

pub bind_still :
    {A B : Type 0} {m : P A} {f : A → P B} {n : ℕ}
    → Acts still n m
    → ((x : A) → Acts still n (f x))
    → Acts still n (m >>= f)
bind_still a k = bind-Acts a k

pub bind_onward :
    {A B : Type 0} {m : P A} {f : A → P B} {n : ℕ}
    → Acts onward n m
    → ((x : A) → Acts still n (f x))
    → Acts onward n (m >>= f)
bind_onward a k = bind-Acts a k

pub bind_next :
    {A B : Type 0} {m : P A} {f : A → P B} {n : ℕ}
    → Acts still n m
    → ((x : A) → Acts onward n (f x))
    → Acts onward n (m >>= f)
bind_next a k = bind-Acts a k

-- Behind a token, as before it, the states are below `n`.
pub case_on :
    {A : Type 0} {n : ℕ} {g : A → Gain} {f : Token → P A} {k : P A} (test : TokenType → Bool)
    → IsReal test
    → ((t : Token) → Acts still n (f t))
    → ActsBy g n k
    → ActsBy g n (case_tok test f k)
case_on {n = zero} test r a b = zero-Acts
case_on {n = suc n} test r a b = case-Acts test r (λ t. lower-Acts (a t)) b

pub expect-Acts : {n : ℕ} (t : TokenType) → IsReal (is_token t) → Acts onward n (expect t)
unfolding expect
expect-Acts t r =
    case_on (is_token t) r (λ u. pure-Acts u)
      (bind_next this-Acts (λ u. bind_onward (report-Acts _) (λ _. pure-Acts _)))

pub expect-still : {n : ℕ} (t : TokenType) → IsReal (is_token t) → Acts still n (expect t)
expect-still t r = weaken-Acts (expect-Acts t r)

pub errorf-still :
    {n : ℕ} (at : Position) (f : Bytes) (args : List Bytes) → Acts still n (errorf at f args)
errorf-still at f args = weaken-Acts (errorf-Acts at f args)

pub onward_still : {A : Type 0} {n : ℕ} {m : P A} → Acts onward n m → Acts still n m
onward_still a = weaken-Acts a

pub at_here : {n : ℕ} → suc n ≤ suc n
at_here = omega arith

pub at_below : {n : ℕ} → n ≤ suc n
at_below = omega arith

-- What acts below a bound acts below what is at most that bound.
pub at_most : {A : Type 0} {g : A → Gain} {k n : ℕ} {m : P A} → k ≤ n → ActsBy g n m → ActsBy g k m
at_most l a = record { runs = λ p b. a.runs p (b.0, omega (arith, b.1, l)) }

pub branch-Acts :
    {A : Type 0} {g : A → Gain} {n : ℕ} {m k : P A} (b : Bool)
    → ActsBy g n m
    → ActsBy g n k
    → ActsBy g n (branch b m k)
unfolding branch
branch-Acts true a b = a
branch-Acts false a b = b

pub ruleset acts_rules = (
  case-Acts, case_on, pure-Acts, stop-Turns, bind_still, bind_onward, bind-Turns, when-Acts,
  branch-Acts, this-Acts, peek-Acts, expect-Acts, expect-still, errorf-Acts, errorf-still,
  repeat-Acts, at_here, at_below, until-Acts, refl, onward_still,
)
