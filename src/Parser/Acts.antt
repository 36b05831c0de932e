-- ===== src/Parser/Acts.antt =====
-- What a method of the parser of src/parser.rs does to its state: it returns, keeps the lexer sound, reads
-- no token twice, and keeps an error that it finds.
use fly_lang.Diagnostic.{Diagnostic}
use fly_lang.Lexer.Invariant.{IsSound}
use fly_lang.Lexer.Next.{next}
use fly_lang.Lexer.State.{Lexer}
use fly_lang.Parser.Monad.{Parser, P, pure, ◌>>=◌, go_on, size, Go, more, stop}
use fly_lang.Prelude.{
  ℕ, zero, suc, ◌≤◌, ◌<◌, List, Option, none, some, ◌≡◌, ◌≢◌, ◌⊎◌, inl, inr, refl, sym, ap, subst,
  ◌∙◌, arith, [], ◌∷◌, ◌++◌, append_assoc, append-nil,
}
use fly_lang.Token.{TokenType, Token}

-- What a method is sure to read: nothing, a token unless there is an error, or a token.
pub data Gain : Type 0 where
  still : Gain
  onward : Gain
  strict : Gain

infixr 60 ◌⊔◌
abbrev pub ◌⊔◌ : Gain → Gain → Gain
still ⊔ g = g
strict ⊔ g = strict
onward ⊔ strict = strict
onward ⊔ still = onward
onward ⊔ onward = onward

abbrev pub Gains : Gain → Parser → Parser → Type 0
Gains still p p' = Unit
Gains onward p p' = (size p' < size p) ⊎ (p'.err ≢ none)
Gains strict p p' = size p' < size p

-- The tokens that the lexer gives from one state to another.
abbrev pub Feeds : Lexer → List Token → Lexer → Type 0
Feeds l [] l' = l' ≡ l
Feeds l (t ∷ ts) l' = (m : Lexer) × (next l ≡ some (t, m)) × Feeds m ts l'

abbrev pub AreReal : List Token → Type 0
AreReal [] = Unit
AreReal (t ∷ ts) = (t.ty ≢ TokenType.eof) × AreReal ts

-- The tokens that the parser holds.
abbrev pub ahead_of : Option Token → List Token
ahead_of none = []
ahead_of (some t) = t ∷ []

abbrev pub held : Parser → List Token
held p = p.tok ∷ ahead_of p.peeked

-- The tokens `passed` are read, in the order in which the lexer gives them; none is the end of the file.
pub record Reads (p p' : Parser) : Type 0 where
  pub passed : List Token
  pub fed : List Token
  pub feeds : Feeds p.lex fed p'.lex
  pub real : AreReal passed
  pub order : held p ++ fed ≡ passed ++ held p'

pub record To (g : Gain) (p p' : Parser) : Type 0 where
  pub sound : IsSound p'.lex
  pub less : size p' ≤ size p
  pub gain : Gains g p p'
  pub keeps : p.err ≢ none → p'.err ≢ none
  pub first : (d : Diagnostic) → p.err ≡ some d → p'.err ≡ some d
  pub reads : Reads p p'

Feeds-append :
    (l m n : Lexer) (ts us : List Token) → Feeds l ts m → Feeds m us n → Feeds l (ts ++ us) n
Feeds-append l m n [] us e f = subst (λ (x : Lexer). Feeds x us n) e f
Feeds-append l m n (t ∷ ts) us (k, e, g) f = (k, e, Feeds-append k m n ts us g f)

AreReal-append : (ts us : List Token) → AreReal ts → AreReal us → AreReal (ts ++ us)
AreReal-append [] us a b = b
AreReal-append (t ∷ ts) us (h, a) b = (h, AreReal-append ts us a b)

pub Reads-refl : {p : Parser} → Reads p p
Reads-refl {p} = record {
  passed = [];
  fed = [];
  feeds = refl;
  real = tt;
  order = append-nil (held p);
}

Reads-trans : {a b c : Parser} → Reads a b → Reads b c → Reads a c
Reads-trans {a} {b} {c} f k = record {
  passed = f.passed ++ k.passed;
  fed = f.fed ++ k.fed;
  feeds = Feeds-append a.lex b.lex c.lex f.fed k.fed f.feeds k.feeds;
  real = AreReal-append f.passed k.passed f.real k.real;
  order =
      sym (append_assoc (held a) f.fed k.fed)
      ∙ ap (λ (ts : List Token). ts ++ k.fed) f.order
      ∙ append_assoc f.passed (held b) k.fed
      ∙ ap (λ (ts : List Token). f.passed ++ ts) k.order
      ∙ sym (append_assoc f.passed k.passed (held c));
}

Gains-trans : (g h : Gain) (a b c : Parser) → To g a b → To h b c → Gains (g ⊔ h) a c
Gains-trans still still a b c f k = tt
Gains-trans still onward a b c f k = elim k.gain [
  | inl l ↦ inl (omega (arith, l, f.less))
  | inr e ↦ inr e
]
Gains-trans still strict a b c f k = omega (arith, k.gain, f.less)
Gains-trans onward still a b c f k = elim f.gain [
  | inl l ↦ inl (omega (arith, l, k.less))
  | inr e ↦ inr (k.keeps e)
]
Gains-trans onward onward a b c f k = elim f.gain [
  | inl l ↦ inl (omega (arith, l, k.less))
  | inr e ↦ inr (k.keeps e)
]
Gains-trans onward strict a b c f k = omega (arith, k.gain, f.less)
Gains-trans strict h a b c f k = omega (arith, f.gain, k.less)

pub To-trans : {g h : Gain} {a b c : Parser} → To g a b → To h b c → To (g ⊔ h) a c
To-trans {g} {h} {a} {b} {c} f k = record {
  sound = k.sound;
  less = omega (arith, f.less, k.less);
  gain = Gains-trans g h a b c f k;
  keeps = λ e. k.keeps (f.keeps e);
  first = λ d e. k.first d (f.first d e);
  reads = Reads-trans f.reads k.reads;
}

pub To-refl : {p : Parser} → IsSound p.lex → To still p p
To-refl {p} s = record {
  sound = s;
  less = omega arith;
  gain = tt;
  keeps = λ e. e;
  first = λ d e. e;
  reads = Reads-refl;
}

-- The lexer is sound, and fewer than `n` tokens are left.
abbrev pub Below : ℕ → Parser → Type 0
Below n p = IsSound p.lex × (size p < n)

abbrev pub Runs : {A : Type 0} → (A → Gain) → Parser → Option (A × Parser) → Type 0
Runs {A} g p o = (x : A) × (p' : Parser) × (o ≡ some (x, p')) × To (g x) p p'

-- From every state below `n` the method returns, with the gain that goes with its result.
pub record ActsBy {A : Type 0} (g : A → Gain) (n : ℕ) (m : P A) : Type 0 where
  pub runs : (p : Parser) → Below n p → Runs g p (m p)

abbrev pub Acts : {A : Type 0} → Gain → ℕ → P A → Type 0
Acts g n m = ActsBy (λ _. g) n m

abbrev pub gain_of : {S : Type 0} → Go S → Gain
gain_of (more s) = strict
gain_of (stop s) = still

-- A turn of a loop reads a token if it goes on.
abbrev pub Turns : {S : Type 0} → ℕ → P (Go S) → Type 0
Turns n m = ActsBy gain_of n m

pub bind-Runs :
    {A B : Type 0} (m : P A) (f : A → P B) (g : Gain) (h : B → Gain) (p : Parser)
    → Runs (λ _. g) p (m p)
    → ((x : A) (p' : Parser) → To g p p' → Runs h p' (f x p'))
    → Runs (λ y. g ⊔ h y) p ((m >>= f) p)
unfolding ◌>>=◌
bind-Runs m f g h p r k =
    let (x, p', e, to) = r in
    let (y, p'', e', to') = k x p' to in (y, p'', ap (go_on f) e ∙ e', To-trans to to')

pub Below-To : {g : Gain} {n : ℕ} {p p' : Parser} → Below n p → To g p p' → Below n p'
Below-To {g} {n} {p} {p'} b t = (t.sound, omega (arith, b.1, t.less))

pub Below-strict : {n : ℕ} {p p' : Parser} → Below (suc n) p → To strict p p' → Below n p'
Below-strict {n} {p} {p'} b t = (t.sound, omega (arith, b.1, t.gain))

pub pure-Acts : {A : Type 0} {n : ℕ} (x : A) → Acts still n (pure x)
pure-Acts {A} {n} x = record { runs = λ p b. (x, p, refl, To-refl b.0) }

pub bind-Acts :
    {A B : Type 0} {m : P A} {f : A → P B} {g h : Gain} {n : ℕ}
    → Acts g n m
    → ((x : A) → Acts h n (f x))
    → Acts (g ⊔ h) n (m >>= f)
bind-Acts {A} {B} {m} {f} {g} {h} {n} a k = record {
  runs = λ p b. bind-Runs m f g (λ _. h) p (a.runs p b) (λ x p' to. (k x).runs p' (Below-To b to));
}

-- Behind a token that is read, the states are below `n`.
pub bind-Acts_strict :
    {A B : Type 0} {m : P A} {f : A → P B} {h : Gain} {n : ℕ}
    → Acts strict (suc n) m
    → ((x : A) → Acts h n (f x))
    → Acts strict (suc n) (m >>= f)
bind-Acts_strict {A} {B} {m} {f} {h} {n} a k = record {
  runs = λ p b.
      bind-Runs m f strict (λ _. h) p (a.runs p b) (λ x p' to. (k x).runs p' (Below-strict b to));
}

pub bind-Turns :
    {A S : Type 0} {m : P A} {f : A → P (Go S)} {n : ℕ}
    → Acts still n m
    → ((x : A) → Turns n (f x))
    → Turns n (m >>= f)
bind-Turns {A} {S} {m} {f} {n} a k = record {
  runs =
      λ p b. bind-Runs m f still gain_of p (a.runs p b) (λ x p' to. (k x).runs p' (Below-To b to));
}

pub stop-Turns : {S : Type 0} {n : ℕ} (s : S) → Turns n (pure (stop s))
stop-Turns {S} {n} s = record { runs = λ p b. (stop s, p, refl, To-refl b.0) }

pub To-still : {g : Gain} {p p' : Parser} → To g p p' → To still p p'
To-still {g} {p} {p'} t = record {
  sound = t.sound;
  less = t.less;
  gain = tt;
  keeps = t.keeps;
  first = t.first;
  reads = t.reads;
}

pub Runs-still :
    {A : Type 0} {g : A → Gain} {p : Parser} {o : Option (A × Parser)}
    → Runs g p o
    → Runs (λ _. still) p o
Runs-still (x, p', e, to) = (x, p', e, To-still to)

pub weaken-Acts : {A : Type 0} {g : A → Gain} {n : ℕ} {m : P A} → ActsBy g n m → Acts still n m
weaken-Acts {A} {g} {n} {m} a = record { runs = λ p b. Runs-still (a.runs p b) }

-- No state is below zero.
pub zero-Acts : {A : Type 0} {g : A → Gain} {m : P A} → ActsBy g zero m
zero-Acts = record { runs = λ p b. absurd (omega (arith, b.1)) }

pub strict-onward : {A : Type 0} {n : ℕ} {m : P A} → Acts strict n m → Acts onward n m
strict-onward {A} {n} {m} a = record {
  runs = λ p b.
      let (x, p', e, to) = a.runs p b in
      (
        x,
        p',
        e,
        record {
          sound = to.sound;
          less = to.less;
          gain = inl to.gain;
          keeps = to.keeps;
          first = to.first;
          reads = to.reads;
        },
      );
}

-- What acts below a bound acts below a lower one.
pub lower-Acts : {A : Type 0} {g : A → Gain} {n : ℕ} {m : P A} → ActsBy g (suc n) m → ActsBy g n m
lower-Acts {A} {g} {n} {m} a = record { runs = λ p b. a.runs p (b.0, omega (arith, b.1)) }
