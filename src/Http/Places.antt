-- ===== src/Http/Places.antt =====
-- src/http.rs: the parts of an address, split at a byte, and the digits of a port.
use fly_lang.Http.Redirect.{
  split_at, rsplit_once, all_digits, value_on, port_of, digits_on, show_port,
}
use fly_lang.Prelude.{
  ℕ, zero, suc, ◌+◌, ◌-◌, ◌*◌, ◌/◌, ◌%◌, ◌^◌, ◌<◌, true, false, ltb, within, ◌==◌, if_rule,
  Bool-cases, Option-cases, ==→eq, Bytes, [], ◌∷◌, ◌++◌, Option, none, some, ◌≡◌, inl, inr, refl,
  ap, ◌∙◌, arith,
}

-- The byte does not occur.
abbrev pub Lacks : ℕ → Bytes → Type 0
Lacks b [] = Unit
Lacks b (c ∷ cs) = ((c == b) ≡ false) × Lacks b cs

pub Lacks-append : (b : ℕ) (xs ys : Bytes) → Lacks b xs → Lacks b ys → Lacks b (xs ++ ys)
Lacks-append b [] ys a h = h
Lacks-append b (x ∷ xs) ys (e, a) h = (e, Lacks-append b xs ys a h)

pub Lacks-left : (b : ℕ) (xs ys : Bytes) → Lacks b (xs ++ ys) → Lacks b xs
Lacks-left b [] ys a = tt
Lacks-left b (x ∷ xs) ys (e, a) = (e, Lacks-left b xs ys a)

-- The first place of a byte.
pub split_at-append :
    (b : ℕ) (xs ys : Bytes) → Lacks b xs → split_at b (xs ++ b ∷ ys) ≡ some (xs, b ∷ ys)
unfolding split_at
split_at-append b [] ys a = let same : (b == b) ≡ true = ground arith in rw (same, split_at) refl
split_at-append b (x ∷ xs) ys (e, a) = rw (split_at-append b xs ys a, e) refl

-- What is split at the first place lacks the byte in front of it.
abbrev pub SplitsAt : ℕ → Bytes → Option (Bytes × Bytes) → Type 0
SplitsAt b s none = Lacks b s
SplitsAt b s (some (x, y)) = Lacks b x × (c : Bytes) × (y ≡ b ∷ c)

SplitsAt-behind :
    (b c : ℕ) (cs : Bytes) (o : Option (Bytes × Bytes))
    → (c == b) ≡ false
    → SplitsAt b cs o
    → SplitsAt b (c ∷ cs) (elim o [ none ↦ none | some (x, y) ↦ some (c ∷ x, y) ])
SplitsAt-behind b c cs none e a = (e, a)
SplitsAt-behind b c cs (some (x, y)) e (a, d, is) = ((e, a), d, is)

pub split_at-SplitsAt : (b : ℕ) (s : Bytes) → SplitsAt b s (split_at b s)
unfolding split_at
split_at-SplitsAt b [] = tt
split_at-SplitsAt b (c ∷ cs) =
    if_rule (SplitsAt b (c ∷ cs)) (c == b) (λ e. (tt, cs, ap (λ (x : ℕ). x ∷ cs) (==→eq c b e)))
      (λ e. SplitsAt-behind b c cs (split_at b cs) e (split_at-SplitsAt b cs))

-- The last place of a byte.
rsplit_once-none : (b : ℕ) (s : Bytes) → Lacks b s → rsplit_once b s ≡ none
unfolding rsplit_once
rsplit_once-none b [] a = refl
rsplit_once-none b (c ∷ cs) (e, a) = rw (rsplit_once-none b cs a, rsplit_once) (rw e refl)

pub rsplit_once-append :
    (b : ℕ) (xs ys : Bytes) → Lacks b ys → rsplit_once b (xs ++ b ∷ ys) ≡ some (xs, ys)
unfolding rsplit_once
rsplit_once-append b [] ys a =
    let same : (b == b) ≡ true = ground arith in
    rw (rsplit_once-none b ys a, rsplit_once) (rw same refl)
rsplit_once-append b (x ∷ xs) ys a = rw (rsplit_once-append b xs ys a, rsplit_once) refl

pub rsplit_once-joins : (b : ℕ) (s x y : Bytes) → rsplit_once b s ≡ some (x, y) → s ≡ x ++ b ∷ y
unfolding rsplit_once
rsplit_once-joins b [] x y h = cc
rsplit_once-joins b (c ∷ cs) x y h = elim (Option-cases (rsplit_once b cs)) [
  | inr ((x', y'), e) ↦
      let i : rsplit_once b (c ∷ cs) ≡ some (c ∷ x', y') = rw (e, rsplit_once) refl in
      let front : c ∷ x' ≡ x = cc (i, h) in
      let behind : y' ≡ y = cc (i, h) in
      ap (◌∷◌ c) (rsplit_once-joins b cs x' y' e)
      ∙ (ap (λ (s : Bytes). s ++ b ∷ y') front ∙ ap (λ (s : Bytes). x ++ b ∷ s) behind)
  | inl e ↦ elim (Bool-cases (c == b)) [
    | inl q ↦
        let i : rsplit_once b (c ∷ cs) ≡ some ([], cs) = rw (e, rsplit_once) (rw q refl) in
        let front : [] ≡ x = cc (i, h) in
        let behind : cs ≡ y = cc (i, h) in
        ap (λ (d : ℕ). d ∷ cs) (==→eq c b q)
        ∙ (ap (λ (s : Bytes). s ++ b ∷ cs) front ∙ ap (λ (s : Bytes). x ++ b ∷ s) behind)
    | inr q ↦ let i : rsplit_once b (c ∷ cs) ≡ none = rw (e, rsplit_once) (rw q refl) in absurd cc
  ]
]

-- The digits of a number below `10 ^ k` are read as it.
value_on-digits_on :
    (k n : ℕ) (out : Bytes) → n < 10 ^ k → value_on 0 (digits_on k n out) ≡ value_on n out
value_on-digits_on zero n out h =
    let none_left : 0 ≡ n = omega (arith, h) in ap (λ (m : ℕ). value_on m out) none_left
value_on-digits_on (suc k) n out h = elim (Bool-cases (n == 0)) [
  | inl e ↦ rw e (let none_left : 0 ≡ n = ground arith in ap (λ (m : ℕ). value_on m out) none_left)
  | inr e ↦
      let less : n / 10 < 10 ^ k = omega (arith, h) in
      let whole : 10 * (n / 10) + (b'0' + n % 10 - b'0') ≡ n = omega arith in
      rw e (value_on-digits_on k (n / 10) _ less ∙ ap (λ (m : ℕ). value_on m out) whole)
]

all_digits-digits_on :
    (k n : ℕ) (out : Bytes) → all_digits out ≡ true → all_digits (digits_on k n out) ≡ true
unfolding all_digits
all_digits-digits_on zero n out h = h
all_digits-digits_on (suc k) n out h =
    let digit : within b'0' b'9' (b'0' + n % 10) ≡ true = ground arith in
    if_rule (λ (s : Bytes). all_digits s ≡ true) (n == 0) (λ _. h)
      (λ _. all_digits-digits_on k (n / 10) ((b'0' + n % 10) ∷ out) (rw (digit, h) refl))

pub all_digits-show_port : (n : ℕ) → all_digits (show_port n) ≡ true
unfolding show_port all_digits
all_digits-show_port n =
    if_rule (λ (s : Bytes). all_digits s ≡ true) (n == 0) (λ _. refl)
      (λ _. all_digits-digits_on 5 n [] refl)

pub all_digits-Lacks :
    (b : ℕ) (s : Bytes) → within b'0' b'9' b ≡ false → all_digits s ≡ true → Lacks b s
unfolding all_digits
all_digits-Lacks b [] e h = tt
all_digits-Lacks b (c ∷ cs) e h = (ground arith, all_digits-Lacks b cs e (ground arith))

port_of-value : (s : Bytes) (n : ℕ) → value_on 0 s ≡ n → 0 < n → n < 2 ^ 16 → port_of s ≡ n
unfolding port_of
port_of-value [] n e h i = absurd (omega (arith, e, h))
port_of-value (c ∷ cs) n e h i =
    let small : ltb n (2 ^ 16) ≡ true = ground arith in rw (e, port_of) (rw small refl)

pub port_of-show_port : (n : ℕ) → n < 2 ^ 16 → port_of (show_port n) ≡ n
unfolding show_port
port_of-show_port n h =
    if_rule (λ (s : Bytes). port_of s ≡ n) (n == 0) (λ e. unfold port_of in ground arith)
      (λ e.
        port_of-value (digits_on 5 n []) n (value_on-digits_on 5 n [] (omega (arith, h)))
          (ground arith) h)

pub port_of_lt : (s : Bytes) → port_of s < 2 ^ 16
unfolding port_of
port_of_lt [] = omega arith
port_of_lt (c ∷ cs) = ground arith
