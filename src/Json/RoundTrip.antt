-- ===== src/Json/RoundTrip.antt =====
-- src/json.rs: `parse` reads back what `encode` writes.
use fly_lang.Json.{
  Chars, Json, null, bool, num, str, arr, obj, Jsons, no_items, item, Fields, no_fields, field,
  Numbers,
}
use fly_lang.Json.Items.{
  IsEnd, write_to-Starts, read_string, read_number, array_next-more_items, more_items-IsEnd,
  array_at-item, object_next-more_fields, more_fields-IsEnd, object_at-field, need_pos, AreShown,
  ItemsAreShown, FieldsAreShown, need, need_items, need_fields,
}
use fly_lang.Json.Number.{show_num}
use fly_lang.Json.Numerals.{IsFront, IsKept-IsShown}
use fly_lang.Json.Read.{
  Outcome, got, and_then, skip_ws, strip, lit, begins, value_at, array_next, array_at, object_next,
  object_at, calls, whole, enough, parse,
}
use fly_lang.Json.Write.{
  write_json_string, write_to, write_items, more_items, write_fields, more_fields, encode,
}
use fly_lang.Prelude.{
  ℕ, zero, suc, ◌+◌, ◌*◌, ◌≤◌, true, false, length, length-append, [], ◌∷◌, ◌++◌, append_assoc,
  append-nil, ◌≡◌, refl, sym, ap, ◌∙◌, arith,
}

mutual
  unfolding calls value_at write_to write_items write_fields array_at object_at lit strip skip_ws
      and_then begins write_json_string

  value-write_to :
      (f : Numbers) (v : Json) (n : ℕ) (rest : Chars)
      → AreShown f v
      → IsEnd rest
      → need v ≤ n
      → (calls f n).value (write_to f v ++ rest) ≡ got v rest
  value-write_to f v zero rest s e h = absurd (omega (arith, h, need_pos v))
  value-write_to f null (suc n) rest s e h = refl
  value-write_to f (bool true) (suc n) rest s e h = refl
  value-write_to f (bool false) (suc n) rest s e h = refl
  value-write_to f (num x) (suc n) rest s e h =
      read_number f (calls f n) x (show_num f x) rest (IsKept-IsShown s).front
        (IsKept-IsShown s).chars (IsKept-IsShown s).reads e
  value-write_to f (str x) (suc n) rest s e h =
      ap (λ (o : Outcome Chars). and_then o (λ x rest. got (str x) rest)) (read_string x rest)
  value-write_to f (arr a) (suc n) rest s e h =
      ap (λ (o : Outcome Jsons). and_then o (λ a rest. got (arr a) rest))
        (ap ((calls f n).array) (append_assoc (write_items f a) (b']' ∷ []) rest)
          ∙ array-write_items f a n rest s (omega (arith, h)))
  value-write_to f (obj kv) (suc n) rest s e h =
      ap (λ (o : Outcome Fields). and_then o (λ kv rest. got (obj kv) rest))
        (ap ((calls f n).object) (append_assoc (write_fields f kv) (b'}' ∷ []) rest)
          ∙ object-write_fields f kv n rest s (omega (arith, h)))

  array-write_items :
      (f : Numbers) (vs : Jsons) (n : ℕ) (rest : Chars)
      → ItemsAreShown f vs
      → need_items vs ≤ n
      → (calls f n).array (write_items f vs ++ b']' ∷ rest) ≡ got vs rest
  array-write_items f no_items zero rest s h = absurd (omega (arith, h))
  array-write_items f (item v vs) zero rest s h = absurd (omega (arith, h))
  array-write_items f no_items (suc n) rest s h = refl
  array-write_items f (item v vs) (suc n) rest (s, ss) h =
      let t : Chars = more_items f vs ++ b']' ∷ rest in
      ap (λ (x : Chars). array_at (calls f n) (skip_ws x))
        (append_assoc (write_to f v) (more_items f vs) (b']' ∷ rest))
      ∙ array_at-item (calls f n) (write_to f v) t (write_to-Starts f v s)
      ∙ ap (λ (o : Outcome Json). and_then o (λ v rest. array_next (calls f n) v (skip_ws rest)))
          (value-write_to f v n t s (more_items-IsEnd f vs rest) (omega (arith, h)))
      ∙ array_next-more_items f (calls f n) v vs rest
          (λ _. array-write_items f vs n rest ss (omega (arith, h)))

  object-write_fields :
      (f : Numbers) (kv : Fields) (n : ℕ) (rest : Chars)
      → FieldsAreShown f kv
      → need_fields kv ≤ n
      → (calls f n).object (write_fields f kv ++ b'}' ∷ rest) ≡ got kv rest
  object-write_fields f no_fields zero rest s h = absurd (omega (arith, h))
  object-write_fields f (field k v kv) zero rest s h = absurd (omega (arith, h))
  object-write_fields f no_fields (suc n) rest s h = refl
  object-write_fields f (field k v kv) (suc n) rest (s, ss) h =
      let t : Chars = more_fields f kv ++ b'}' ∷ rest in
      ap (λ (x : Chars). object_at (calls f n) (skip_ws x))
        (append_assoc (write_json_string k) (b':' ∷ (write_to f v ++ more_fields f kv))
            (b'}' ∷ rest)
          ∙ ap (λ (x : Chars). write_json_string k ++ (b':' ∷ x))
              (append_assoc (write_to f v) (more_fields f kv) (b'}' ∷ rest)))
      ∙ object_at-field (calls f n) k (write_to f v ++ t)
      ∙ ap (λ (o : Outcome Json). and_then o (λ v rest. object_next (calls f n) k v (skip_ws rest)))
          (value-write_to f v n t s (more_fields-IsEnd f kv rest) (omega (arith, h)))
      ∙ object_next-more_fields f (calls f n) k v kv rest
          (λ _. object-write_fields f kv n rest ss (omega (arith, h)))

front_length : (s : Chars) → IsFront s → 1 ≤ length s
front_length [] h = absurd h
front_length (c ∷ cs) h = omega arith

mutual
  unfolding write_to write_items write_fields write_json_string

  need-write_to : (f : Numbers) (v : Json) → AreShown f v → need v ≤ 2 * length (write_to f v)
  need-write_to f null s = omega arith
  need-write_to f (bool true) s = omega arith
  need-write_to f (bool false) s = omega arith
  need-write_to f (num n) s = omega (arith, front_length (show_num f n) (IsKept-IsShown s).front)
  need-write_to f (str x) s = omega arith
  need-write_to f (arr no_items) s = omega arith
  need-write_to f (arr (item v vs)) (s, ss) = omega (
    arith,
    need-write_to f v s,
    need-more_items f vs ss,
    length-append (write_to f v) (more_items f vs),
    length-append (write_to f v ++ more_items f vs) (b']' ∷ []),
  )
  need-write_to f (obj no_fields) s = omega arith
  need-write_to f (obj (field k v kv)) (s, ss) =
      let t : Chars = b':' ∷ (write_to f v ++ more_fields f kv) in
      omega (
        arith,
        need-write_to f v s,
        need-more_fields f kv ss,
        length-append (write_to f v) (more_fields f kv),
        length-append (write_json_string k) t,
        length-append (write_json_string k ++ t) (b'}' ∷ []),
      )

  need-more_items :
      (f : Numbers) (vs : Jsons)
      → ItemsAreShown f vs
      → need_items vs ≤ 2 * length (more_items f vs) + 1
  need-more_items f no_items s = omega arith
  need-more_items f (item v vs) (s, ss) = omega (
    arith,
    need-write_to f v s,
    need-more_items f vs ss,
    length-append (write_to f v) (more_items f vs),
  )

  need-more_fields :
      (f : Numbers) (kv : Fields)
      → FieldsAreShown f kv
      → need_fields kv ≤ 2 * length (more_fields f kv) + 1
  need-more_fields f no_fields s = omega arith
  need-more_fields f (field k v kv) (s, ss) = omega (
    arith,
    need-write_to f v s,
    need-more_fields f kv ss,
    length-append (write_to f v) (more_fields f kv),
    length-append (write_json_string k) (b':' ∷ (write_to f v ++ more_fields f kv)),
  )

-- What `encode` writes for a value, `parse` reads as that value, where each of its whole numbers is below `2 ^ 63`
-- in absolute value and no `-0.0`, `from_str` reads the decimal digits of each whole number as it, and it reads what
-- `{}` writes for each other number as it, which holds characters of numbers alone with a digit or a minus in front.
pub parse-encode : (f : Numbers) (v : Json) → AreShown f v → parse f (encode f v) ≡ got v []
unfolding parse encode and_then skip_ws
parse-encode f v s =
    let w : Chars = write_to f v in
    ap (λ (x : Chars). parse f x) (sym (append-nil w))
    ∙ ap (λ (o : Outcome Json). and_then o (λ v rest. whole v (skip_ws rest)))
        (value-write_to f v (enough (w ++ [])) [] s tt
          (omega (arith, need-write_to f v s, length-append w [])))
