-- ===== src/Json/Total.antt =====
-- src/json.rs: `parse` ends on every text.
use fly_lang.Json.{Chars, Json, Numbers}
use fly_lang.Json.Ends.{
  Ends, Ends-and_then, Ends-more, elim_rule, length-skip_ws, string-Ends, lit-Ends, number-Ends,
}
use fly_lang.Json.Read.{
  Outcome, got, failed, stuck, and_then, skip_ws, string, Begins, brace, bracket, quote, letter_t,
  letter_f, letter_n, digit, other, begins, Calls, value_at, array_next, array_at, object_next,
  field_at, object_at, calls, whole, enough, parse,
}
use fly_lang.Prelude.{ℕ, zero, suc, ◌+◌, ◌*◌, ◌≤◌, ◌==◌, if_rule, length, utf8, [], ◌∷◌, ◌≢◌, arith}

-- Calls that end wherever `n` is enough for them.
record Live (r : Calls) (n : ℕ) : Type 0 where
  value : (s : Chars) → 2 * length s + 1 ≤ n → Ends (suc (length s)) (r.value s)
  array : (s : Chars) → 2 * length s + 2 ≤ n → Ends (suc (length s)) (r.array s)
  object : (s : Chars) → 2 * length s + 2 ≤ n → Ends (suc (length s)) (r.object s)

begins_rule :
    {A : Type 0} (P : A → Type 0) (b : Begins) {x y z t u v w o : A}
    → P x
    → P y
    → P z
    → P t
    → P u
    → P v
    → P w
    → P o
    → P (elim b [
      | brace ↦ x
      | bracket ↦ y
      | quote ↦ z
      | letter_t ↦ t
      | letter_f ↦ u
      | letter_n ↦ v
      | digit ↦ w
      | other ↦ o
    ])
begins_rule P brace a b c d e f g h = a
begins_rule P bracket a b c d e f g h = b
begins_rule P quote a b c d e f g h = c
begins_rule P letter_t a b c d e f g h = d
begins_rule P letter_f a b c d e f g h = e
begins_rule P letter_n a b c d e f g h = f
begins_rule P digit a b c d e f g h = g
begins_rule P other a b c d e f g h = h

value_at-Ends :
    (f : Numbers) (r : Calls) (n : ℕ) (s : Chars)
    → Live r n
    → 2 * length s ≤ n
    → Ends (suc (length s)) (value_at f r s)
unfolding value_at
value_at-Ends f r n [] live h = tt
value_at-Ends f r n (c ∷ cs) live h =
    begins_rule (Ends (suc (suc (length cs)))) (begins c)
      (Ends-and_then _ _ (r.object cs) _ (live.object cs (omega (arith, h)))
        (λ kv rest l. omega (arith, l)))
      (Ends-and_then _ _ (r.array cs) _ (live.array cs (omega (arith, h)))
        (λ a rest l. omega (arith, l)))
      (Ends-and_then _ _ (string (suc (length cs)) cs) _
        (string-Ends (suc (length cs)) cs (omega arith)) (λ x rest l. omega (arith, l)))
      (lit-Ends (utf8 "true") _ (c ∷ cs)) (lit-Ends (utf8 "false") _ (c ∷ cs))
      (lit-Ends (utf8 "null") _ (c ∷ cs)) (number-Ends f (c ∷ cs)) tt

array_next-Ends :
    (r : Calls) (n : ℕ) (v : Json) (s : Chars)
    → Live r n
    → 2 * length s ≤ n
    → Ends (suc (length s)) (array_next r v s)
unfolding array_next
array_next-Ends r n v [] live h = tt
array_next-Ends r n v (c ∷ cs) live h =
    elim_rule (Ends (suc (suc (length cs)))) (c == b',')
      (Ends-and_then _ _ (r.array cs) _ (live.array cs (omega (arith, h)))
        (λ vs rest l. omega (arith, l)))
      (if_rule (Ends (suc (suc (length cs)))) (c == b']') (λ _. omega arith) (λ _. tt))

array_at-Ends :
    (r : Calls) (n : ℕ) (s : Chars)
    → Live r n
    → 2 * length s + 1 ≤ n
    → Ends (suc (length s)) (array_at r s)
unfolding array_at
array_at-Ends r n [] live h = tt
array_at-Ends r n (c ∷ cs) live h =
    elim_rule (Ends (suc (suc (length cs)))) (c == b']') (omega arith) (
      Ends-and_then _ _ (r.value (c ∷ cs)) _ (live.value (c ∷ cs) h) (λ v rest l.
        let le = length-skip_ws rest in
        Ends-more _ _ (array_next r v (skip_ws rest)) (omega (arith, l, le))
          (array_next-Ends r n v (skip_ws rest) live (omega (arith, l, le, h)))))

object_next-Ends :
    (r : Calls) (n : ℕ) (k : Chars) (v : Json) (s : Chars)
    → Live r n
    → 2 * length s ≤ n
    → Ends (suc (length s)) (object_next r k v s)
unfolding object_next
object_next-Ends r n k v [] live h = tt
object_next-Ends r n k v (c ∷ cs) live h =
    elim_rule (Ends (suc (suc (length cs)))) (c == b',')
      (Ends-and_then _ _ (r.object cs) _ (live.object cs (omega (arith, h)))
        (λ kv rest l. omega (arith, l)))
      (if_rule (Ends (suc (suc (length cs)))) (c == b'}') (λ _. omega arith) (λ _. tt))

field_at-Ends :
    (r : Calls) (n : ℕ) (k s : Chars)
    → Live r n
    → 2 * length s ≤ n
    → Ends (suc (length s)) (field_at r k s)
unfolding field_at
field_at-Ends r n k [] live h = tt
field_at-Ends r n k (c ∷ cs) live h =
    elim_rule (Ends (suc (suc (length cs)))) (c == b':')
      (Ends-and_then _ _ (r.value cs) _ (live.value cs (omega (arith, h))) (λ v rest l.
        let le = length-skip_ws rest in
        Ends-more _ _ (object_next r k v (skip_ws rest)) (omega (arith, l, le))
          (object_next-Ends r n k v (skip_ws rest) live (omega (arith, l, le, h)))))
      tt

object_at-Ends :
    (r : Calls) (n : ℕ) (s : Chars)
    → Live r n
    → 2 * length s + 1 ≤ n
    → Ends (suc (length s)) (object_at r s)
unfolding object_at
object_at-Ends r n [] live h = tt
object_at-Ends r n (c ∷ cs) live h =
    elim_rule (Ends (suc (suc (length cs)))) (c == b'}') (omega arith) (
      elim_rule (Ends (suc (suc (length cs)))) (c == b'"')
        (Ends-and_then _ _ (string (suc (length cs)) cs) _
          (string-Ends (suc (length cs)) cs (omega arith))
          (λ k rest l.
            let le = length-skip_ws rest in
            Ends-more _ _ (field_at r k (skip_ws rest)) (omega (arith, l, le))
              (field_at-Ends r n k (skip_ws rest) live (omega (arith, l, le, h)))))
        tt)

calls-Live : (f : Numbers) (n : ℕ) → Live (calls f n) n
unfolding calls
calls-Live f zero = record {
  value = λ s h. absurd (omega (arith, h));
  array = λ s h. absurd (omega (arith, h));
  object = λ s h. absurd (omega (arith, h));
}
calls-Live f (suc n) =
    let live = calls-Live f n in
    let r = calls f n in
    record {
      value = λ s h.
          let le = length-skip_ws s in
          Ends-more _ _ (value_at f r (skip_ws s)) (omega (arith, le))
            (value_at-Ends f r n (skip_ws s) live (omega (arith, le, h)));
      array = λ s h.
          let le = length-skip_ws s in
          Ends-more _ _ (array_at r (skip_ws s)) (omega (arith, le))
            (array_at-Ends r n (skip_ws s) live (omega (arith, le, h)));
      object = λ s h.
          let le = length-skip_ws s in
          Ends-more _ _ (object_at r (skip_ws s)) (omega (arith, le))
            (object_at-Ends r n (skip_ws s) live (omega (arith, le, h)));
    }

not_stuck : {A : Type 0} (m : ℕ) (o : Outcome A) → Ends m o → o ≢ stuck
not_stuck m (got x rest) e h = cc
not_stuck m (failed x) e h = cc
not_stuck m stuck e h = e

whole-Ends : (v : Json) (s : Chars) → Ends 1 (whole v s)
whole-Ends v [] = omega arith
whole-Ends v (c ∷ cs) = tt

-- `parse` of any text gives a value or an error: its calls are never nested deeper than twice the text's length
-- and two.
pub parse-total : (f : Numbers) (s : Chars) → parse f s ≢ stuck
unfolding parse
parse-total f s =
    not_stuck 1 (and_then ((calls f (enough s)).value s) (λ v rest. whole v (skip_ws rest))) (
      Ends-and_then _ _ ((calls f (enough s)).value s) _
        ((calls-Live f (enough s)).value s (omega arith)) (λ v rest l. whole-Ends v (skip_ws rest)))
