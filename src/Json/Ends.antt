-- ===== src/Json/Ends.antt =====
-- src/json.rs: the reading of strings, words and numbers ends.
use fly_lang.Json.{Chars, Json, Numbers}
use fly_lang.Json.Read.{
  Outcome, got, failed, stuck, and_then, is_space, skip_ws, strip, literal_of, lit, in_number,
  number_span, number_of, number, scalar_of, unicode_value, is_scalar, byte_len, unicode, escape_of,
  escape, string,
}
use fly_lang.Prelude.{
  ℕ, zero, suc, ◌≤◌, ◌<◌, Bool, true, false, ◌==◌, if_rule, if_result, inl, inr, length,
  length-drop, drop, take, [], ◌∷◌, Option, none, some, ◌≡◌, refl, ap, arith,
}

-- Neither out of fuel nor with `m` characters left, or more.
abbrev pub Ends : {A : Type 0} → ℕ → Outcome A → Type 0
Ends m (got x rest) = length rest < m
Ends m (failed e) = Unit
Ends m stuck = ⊥

pub Ends-and_then :
    {A B : Type 0} (m k : ℕ) (o : Outcome A) (f : A → Chars → Outcome B)
    → Ends m o
    → ((x : A) (rest : Chars) → length rest < m → Ends k (f x rest))
    → Ends k (and_then o f)
unfolding and_then
Ends-and_then m k (got x rest) f e h = h x rest e
Ends-and_then m k (failed x) f e h = tt
Ends-and_then m k stuck f e h = absurd e

pub Ends-more : {A : Type 0} (m k : ℕ) (o : Outcome A) → m ≤ k → Ends m o → Ends k o
Ends-more m k (got x rest) l e = omega (arith, l, e)
Ends-more m k (failed x) l e = tt
Ends-more m k stuck l e = e

-- A case on a test ends if both cases do.
pub elim_rule :
    {A : Type 0} (P : A → Type 0) (b : Bool) {x y : A}
    → P x
    → P y
    → P (elim b [ true ↦ x | false ↦ y ])
elim_rule P true p q = p
elim_rule P false p q = q

pub length-skip_ws : (s : Chars) → length (skip_ws s) ≤ length s
unfolding skip_ws
length-skip_ws [] = omega arith
length-skip_ws (c ∷ cs) =
    if_rule (λ (x : Chars). length x ≤ suc (length cs)) (is_space c)
      (λ _. omega (arith, length-skip_ws cs)) (λ _. omega arith)

pub scalar_of-Ends : (o : Option ℕ) (s : Chars) → Ends (suc (length s)) (scalar_of o (drop 4 s))
scalar_of-Ends none s = tt
scalar_of-Ends (some c) s =
    if_rule (Ends (suc (length s))) (is_scalar c) (λ _. omega (arith, length-drop 4 s)) (λ _. tt)

pub unicode-Ends : (s : Chars) → Ends (suc (length s)) (unicode s)
unfolding unicode
unicode-Ends s =
    if_rule (Ends (suc (length s))) (byte_len (take 4 s) == 4)
      (λ _. scalar_of-Ends (unicode_value (take 4 s)) s) (λ _. tt)

pub escape-Ends : (s : Chars) → Ends (suc (length s)) (escape s)
unfolding escape escape_of
escape-Ends [] = tt
escape-Ends (e ∷ s) = ground (arith, unicode-Ends s)

pub string-Ends : (n : ℕ) (s : Chars) → length s < n → Ends (length s) (string n s)
unfolding string
string-Ends zero s h = absurd (omega (arith, h))
string-Ends (suc n) [] h = tt
string-Ends (suc n) (c ∷ cs) h = elim_rule (Ends (suc (length cs))) (c == b'"') (omega arith) (
    elim_rule (Ends (suc (length cs))) (c == b'\\')
      (Ends-and_then (suc (length cs)) _ (escape cs) _ (escape-Ends cs) (λ x rest l.
        Ends-and_then (length rest) _ (string n rest) _ (string-Ends n rest (omega (arith, h, l)))
          (λ out rest' l'. omega (arith, l, l'))))
      (Ends-and_then (length cs) _ (string n cs) _ (string-Ends n cs (omega (arith, h)))
        (λ out rest l. omega (arith, l))))

pub strip_length : (w s r : Chars) → strip w s ≡ some r → length r ≤ length s
unfolding strip
strip_length [] s r h = let same : s ≡ r = cc in omega (arith, ap length same)
strip_length (c ∷ w) [] r h = cc
strip_length (c ∷ w) (d ∷ s) r h = elim (if_result (c == d) (strip w s) none h) [
  | inl e ↦ omega (arith, strip_length w s r e)
  | inr e ↦ cc
]

pub literal_of-Ends :
    (w : Chars) (v : Json) (s : Chars) (o : Option Chars)
    → ((r : Chars) → o ≡ some r → length r ≤ length s)
    → Ends (suc (length s)) (literal_of w v o)
literal_of-Ends w v s none h = tt
literal_of-Ends w v s (some r) h = omega (arith, h r refl)

pub lit-Ends : (w : Chars) (v : Json) (s : Chars) → Ends (suc (length s)) (lit w v s)
unfolding lit
lit-Ends w v s = literal_of-Ends w v s (strip w s) (strip_length w s)

pub length-number_span : (s : Chars) → length (number_span s).1 ≤ length s
unfolding number_span
length-number_span [] = omega arith
length-number_span (c ∷ cs) =
    if_rule (λ (x : Chars × Chars). length x.1 ≤ suc (length cs)) (in_number c)
      (λ _. omega (arith, length-number_span cs)) (λ _. omega arith)

pub number_of-Ends :
    (o : Option ℕ) (rest : Chars) (m : ℕ) → length rest < m → Ends m (number_of o rest)
number_of-Ends none rest m h = tt
number_of-Ends (some n) rest m h = h

pub number-Ends : (f : Numbers) (s : Chars) → Ends (suc (length s)) (number f s)
unfolding number
number-Ends f s =
    number_of-Ends (f.from_str (number_span s).0) (number_span s).1 _
      (omega (arith, length-number_span s))
