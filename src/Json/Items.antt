-- ===== src/Json/Items.antt =====
-- The pieces of what src/json.rs writes, each as it is read: numbers, items behind commas, fields behind keys.
use fly_lang.Json.{
  Chars, Json, null, bool, num, str, arr, obj, Jsons, no_items, item, Fields, no_fields, field,
  Numbers,
}
use fly_lang.Json.Number.{show_num}
use fly_lang.Json.Numerals.{AllIn, IsFront, IsKept, IsKept-IsShown}
use fly_lang.Json.Read.{
  Outcome, got, and_then, is_space, skip_ws, in_number, number_span, number_of, number, string,
  digit, begins, Calls, value_at, array_next, array_at, object_next, field_at, object_at,
}
use fly_lang.Json.Strings.{string-write_chars}
use fly_lang.Json.Write.{
  write_char, write_chars, write_json_string, write_to, write_items, more_items, write_fields,
  more_fields,
}
use fly_lang.Prelude.{
  ℕ, suc, ◌+◌, ◌≤◌, ◌<◌, true, false, ◌||◌, within, ◌==◌, length, length-append, [], ◌∷◌, ◌++◌,
  append_assoc, Option, some, ◌≡◌, ◌≢◌, refl, sym, ap, subst, ◌∙◌, arith,
}

abbrev mutual
  pub AreShown : Numbers → Json → Type 0
  AreShown f (num n) = IsKept f n
  AreShown f (arr a) = ItemsAreShown f a
  AreShown f (obj kv) = FieldsAreShown f kv
  AreShown f _ = Unit

  pub ItemsAreShown : Numbers → Jsons → Type 0
  ItemsAreShown f no_items = Unit
  ItemsAreShown f (item v vs) = AreShown f v × ItemsAreShown f vs

  pub FieldsAreShown : Numbers → Fields → Type 0
  FieldsAreShown f no_fields = Unit
  FieldsAreShown f (field k v kv) = AreShown f v × FieldsAreShown f kv

-- The calls that reading a value nests in each other, at most.
abbrev mutual
  pub need : Json → ℕ
  need (arr a) = suc (need_items a)
  need (obj kv) = suc (need_fields kv)
  need _ = 1

  pub need_items : Jsons → ℕ
  need_items no_items = 1
  need_items (item v vs) = suc (need v + need_items vs)

  pub need_fields : Fields → ℕ
  need_fields no_fields = 1
  need_fields (field k v kv) = suc (need v + need_fields kv)

-- No number goes on here.
abbrev pub IsEnd : Chars → Type 0
IsEnd [] = Unit
IsEnd (c ∷ cs) = in_number c ≡ false

pub number_span-AllIn :
    (ds rest : Chars) → AllIn ds → IsEnd rest → number_span (ds ++ rest) ≡ (ds, rest)
unfolding number_span
number_span-AllIn [] [] a e = refl
number_span-AllIn [] (c ∷ cs) a e = rw e
number_span-AllIn (d ∷ ds) rest (h, a) e = rw (h, number_span-AllIn ds rest a e)

pub front_digit : (c : ℕ) → (c == b'-' || within b'0' b'9' c) ≡ true → begins c ≡ digit
unfolding begins
front_digit c h = ground arith

pub front_plain : (c : ℕ) → (c == b'-' || within b'0' b'9' c) ≡ true → is_space c ≡ false
front_plain c h = ground arith

pub front_other : (c : ℕ) → (c == b'-' || within b'0' b'9' c) ≡ true → (c == b']') ≡ false
front_other c h = ground arith

-- The first character of a value.
pub record Starts (s : Chars) : Type 0 where
  pub c : ℕ
  pub cs : Chars
  pub is : s ≡ c ∷ cs
  pub plain : is_space c ≡ false
  pub not_close : (c == b']') ≡ false

pub IsFront-Starts : (s : Chars) → IsFront s → Starts s
IsFront-Starts [] h = absurd h
IsFront-Starts (c ∷ cs) h = record {
  c = c;
  cs = cs;
  is = refl;
  plain = front_plain c h;
  not_close = front_other c h;
}

pub write_to-Starts : (f : Numbers) (v : Json) → AreShown f v → Starts (write_to f v)
unfolding write_to write_json_string
write_to-Starts f null s = record { c = b'n'; cs = _; is = refl; plain = refl; not_close = refl }
write_to-Starts f (bool true) s = record {
  c = b't';
  cs = _;
  is = refl;
  plain = refl;
  not_close = refl;
}
write_to-Starts f (bool false) s = record {
  c = b'f';
  cs = _;
  is = refl;
  plain = refl;
  not_close = refl;
}
write_to-Starts f (num n) s = IsFront-Starts (show_num f n) (IsKept-IsShown s).front
write_to-Starts f (str x) s = record { c = b'"'; cs = _; is = refl; plain = refl; not_close = refl }
write_to-Starts f (arr a) s = record { c = b'['; cs = _; is = refl; plain = refl; not_close = refl }
write_to-Starts f (obj kv) s = record {
  c = b'{';
  cs = _;
  is = refl;
  plain = refl;
  not_close = refl;
}

pub skip_ws-plain : (c : ℕ) (cs : Chars) → is_space c ≡ false → skip_ws (c ∷ cs) ≡ c ∷ cs
unfolding skip_ws
skip_ws-plain c cs h = rw h

pub length-write_char : (c : ℕ) → 1 ≤ length (write_char c)
unfolding write_char
length-write_char c = ground arith

pub length-write_chars : (s : Chars) → length s ≤ length (write_chars s)
unfolding write_chars
length-write_chars [] = omega arith
length-write_chars (c ∷ cs) = omega (
  arith,
  length-write_char c,
  length-write_chars cs,
  length-append (write_char c) (write_chars cs),
)

-- A string in quotes, in front of what stands behind it.
pub read_string :
    (s rest : Chars)
    → string
        (suc (length ((write_chars s ++ b'"' ∷ []) ++ rest)))
        ((write_chars s ++ b'"' ∷ []) ++ rest)
      ≡ got s rest
read_string s rest =
    let fits : length s < suc (length ((write_chars s ++ b'"' ∷ []) ++ rest)) = omega (
      arith,
      length-write_chars s,
      length-append (write_chars s ++ b'"' ∷ []) rest,
      length-append (write_chars s) (b'"' ∷ []),
    ) in
    ap (string _) (append_assoc (write_chars s) (b'"' ∷ []) rest) ∙ string-write_chars s _ rest fits

pub number-AllIn :
    (f : Numbers) (n : ℕ) (ds rest : Chars)
    → AllIn ds
    → f.from_str ds ≡ some n
    → IsEnd rest
    → number f (ds ++ rest) ≡ got (num n) rest
unfolding number
number-AllIn f n ds rest a reads e =
    ap (λ (r : Chars × Chars). number_of (f.from_str r.0) r.1) (number_span-AllIn ds rest a e)
    ∙ ap (λ (o : Option ℕ). number_of o rest) reads

pub read_number :
    (f : Numbers) (r : Calls) (n : ℕ) (ds rest : Chars)
    → IsFront ds
    → AllIn ds
    → f.from_str ds ≡ some n
    → IsEnd rest
    → value_at f r (skip_ws (ds ++ rest)) ≡ got (num n) rest
unfolding value_at
read_number f r n [] rest h a reads e = absurd h
read_number f r n (c ∷ cs) rest h a reads e =
    ap (value_at f r) (skip_ws-plain c (cs ++ rest) (front_plain c h))
    ∙ (rw (front_digit c h, value_at) (number-AllIn f n (c ∷ cs) rest a reads e))

-- Behind an item, where the other items are read from the front of theirs.
pub array_next-more_items :
    (f : Numbers) (r : Calls) (v : Json) (vs : Jsons) (rest : Chars)
    → (vs ≢ no_items → r.array (write_items f vs ++ b']' ∷ rest) ≡ got vs rest)
    → array_next r v (skip_ws (more_items f vs ++ b']' ∷ rest)) ≡ got (item v vs) rest
unfolding array_next skip_ws more_items write_items and_then
array_next-more_items f r v no_items rest h = refl
array_next-more_items f r v (item w ws) rest h =
    ap (λ (o : Outcome Jsons). and_then o (λ vs rest. got (item v vs) rest)) (h (λ e. cc))

pub more_items-IsEnd :
    (f : Numbers) (vs : Jsons) (rest : Chars) → IsEnd (more_items f vs ++ b']' ∷ rest)
unfolding more_items
more_items-IsEnd f no_items rest = refl
more_items-IsEnd f (item v vs) rest = refl

-- The first item, where it is read from its text.
pub array_at-item :
    (r : Calls) (s t : Chars)
    → Starts s
    → array_at r (skip_ws (s ++ t))
      ≡ and_then (r.value (s ++ t)) (λ v rest. array_next r v (skip_ws rest))
unfolding array_at
array_at-item r s t h =
    subst
      (λ (x : Chars).
        array_at r (skip_ws (x ++ t))
        ≡ and_then (r.value (x ++ t)) (λ v rest. array_next r v (skip_ws rest)))
      (sym h.is)
      (ap (array_at r) (skip_ws-plain h.c (h.cs ++ t) h.plain) ∙ (rw (h.not_close, array_at)))

-- The same for fields.
pub object_next-more_fields :
    (f : Numbers) (r : Calls) (k : Chars) (v : Json) (kv : Fields) (rest : Chars)
    → (kv ≢ no_fields → r.object (write_fields f kv ++ b'}' ∷ rest) ≡ got kv rest)
    → object_next r k v (skip_ws (more_fields f kv ++ b'}' ∷ rest)) ≡ got (field k v kv) rest
unfolding object_next skip_ws more_fields write_fields and_then
object_next-more_fields f r k v no_fields rest h = refl
object_next-more_fields f r k v (field l w kv) rest h =
    ap (λ (o : Outcome Fields). and_then o (λ kv rest. got (field k v kv) rest)) (h (λ e. cc))

pub more_fields-IsEnd :
    (f : Numbers) (kv : Fields) (rest : Chars) → IsEnd (more_fields f kv ++ b'}' ∷ rest)
unfolding more_fields
more_fields-IsEnd f no_fields rest = refl
more_fields-IsEnd f (field k v kv) rest = refl

-- A key is read up to its colon.
pub object_at-field :
    (r : Calls) (k t : Chars)
    → object_at r (skip_ws (write_json_string k ++ (b':' ∷ t)))
      ≡ and_then (r.value t) (λ v rest. object_next r k v (skip_ws rest))
unfolding object_at skip_ws write_json_string field_at and_then
object_at-field r k t =
    ap (λ (o : Outcome Chars). and_then o (λ k rest. field_at r k (skip_ws rest)))
      (read_string k (b':' ∷ t))

pub need_pos : (v : Json) → 0 < need v
need_pos null = omega arith
need_pos (bool b) = omega arith
need_pos (num n) = omega arith
need_pos (str s) = omega arith
need_pos (arr a) = omega arith
need_pos (obj kv) = omega arith
