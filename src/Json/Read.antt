-- ===== src/Json/Read.antt =====
-- src/json.rs: `parse`. What is read behind `i` is the list of the characters that are left.
use fly_lang.Json.{Json, Jsons, no_items, item, Fields, no_fields, field, Numbers, Chars}
use fly_lang.Prelude.{
  ℕ, zero, suc, ◌+◌, ◌-◌, ◌*◌, Bool, true, false, ◌||◌, ltb, within, ◌==◌, if◌then◌else◌, utf8,
  length, take, drop, [], ◌∷◌, Option, none, some,
}

-- The messages of errors, in the order of the source.
pub data Fault : Type 0 where
  trailing empty : Fault
  bad_char : ℕ → Fault
  literal : Chars → Fault
  bad_number open_string open_escape short_unicode bad_unicode bad_point : Fault
  bad_escape : ℕ → Fault
  open_array no_array_comma open_object no_colon : Fault
  bad_key : ℕ → Fault
  no_object_comma : Fault

-- A value with what is left, an error, or fuel that ran out.
pub data Outcome (A : Type 0) : Type 0 where
  got : A → Chars → Outcome A
  failed : Fault → Outcome A
  stuck : Outcome A

unfoldable pub and_then : {A B : Type 0} → Outcome A → (A → Chars → Outcome B) → Outcome B
and_then (got x rest) f = f x rest
and_then (failed e) f = failed e
and_then stuck f = stuck

abbrev pub is_space : ℕ → Bool
is_space c = c == b' ' || c == b'\t' || c == b'\n' || c == b'\r'

unfoldable pub skip_ws : Chars → Chars
skip_ws [] = []
skip_ws (c ∷ cs) = let rest = skip_ws cs in if is_space c then rest else c ∷ cs

-- What stands behind `lit` where it stands in front.
unfoldable pub strip : Chars → Chars → Option Chars
strip [] s = some s
strip (c ∷ cs) [] = none
strip (c ∷ cs) (d ∷ ds) = let rest = strip cs ds in if c == d then rest else none

abbrev pub literal_of : Chars → Json → Option Chars → Outcome Json
literal_of word v none = failed (Fault.literal word)
literal_of word v (some rest) = got v rest

unfoldable pub lit : Chars → Json → Chars → Outcome Json
lit word v s = literal_of word v (strip word s)

abbrev pub in_number : ℕ → Bool
in_number c = within b'0' b'9' c || c == b'-' || c == b'+' || c == b'.' || c == b'e' || c == b'E'

-- The characters of a number and what stands behind them.
unfoldable pub number_span : Chars → Chars × Chars
number_span [] = ([], [])
number_span (c ∷ cs) =
    let (front, back) = number_span cs in if in_number c then (c ∷ front, back) else ([], c ∷ cs)

abbrev pub number_of : Option ℕ → Chars → Outcome Json
number_of none rest = failed Fault.bad_number
number_of (some n) rest = got (Json.num n) rest

unfoldable pub number : Numbers → Chars → Outcome Json
number f s = let (front, back) = number_span s in number_of (f.from_str front) back

unfoldable pub hex_value : ℕ → Option ℕ
hex_value c =
    if within b'0' b'9' c
    then some (c - b'0')
    else if within b'a' b'f' c
    then some (c - b'a' + 10)
    else if within b'A' b'F' c
    then some (c - b'A' + 10)
    else none

abbrev pub shifted : ℕ → Option ℕ → Option ℕ
shifted n none = none
shifted n (some d) = some (16 * n + d)

abbrev pub hex_on : Option ℕ → ℕ → Option ℕ
hex_on none c = none
hex_on (some n) c = shifted n (hex_value c)

-- `u32::from_str_radix(_, 16)` of four bytes, of which the first may be `+`.
unfoldable pub unicode_value : Chars → Option ℕ
unicode_value (a ∷ b ∷ c ∷ d ∷ []) =
    hex_on (hex_on (hex_on (if a == b'+' then some 0 else hex_value a) b) c) d
unicode_value _ = none

abbrev pub utf8_len : ℕ → ℕ
utf8_len c = if ltb c 0x80 then 1 else if ltb c 0x800 then 2 else if ltb c 0x10000 then 3 else 4

unfoldable pub byte_len : Chars → ℕ
byte_len [] = 0
byte_len (c ∷ cs) = utf8_len c + byte_len cs

-- `char::from_u32`
abbrev pub is_scalar : ℕ → Bool
is_scalar c = ltb c 0xD800 || within 0xE000 0x10FFFF c

abbrev pub scalar_of : Option ℕ → Chars → Outcome ℕ
scalar_of none rest = failed Fault.bad_unicode
scalar_of (some c) rest = if is_scalar c then got c rest else failed Fault.bad_point

-- Behind `\u`.
unfoldable pub unicode : Chars → Outcome ℕ
unicode s =
    if byte_len (take 4 s) == 4
    then scalar_of (unicode_value (take 4 s)) (drop 4 s)
    else failed Fault.short_unicode

-- The arms of the `match` on the character behind a backslash.
unfoldable pub escape_of : ℕ → Chars → Outcome ℕ
escape_of e rest =
    if e == b'"' || e == b'\\' || e == b'/'
    then got e rest
    else if e == b'b'
    then got 8 rest
    else if e == b'f'
    then got 12 rest
    else if e == b'n'
    then got b'\n' rest
    else if e == b'r'
    then got b'\r' rest
    else if e == b't'
    then got b'\t' rest
    else if e == b'u'
    then unicode rest
    else failed (Fault.bad_escape e)

-- Behind a backslash.
unfoldable pub escape : Chars → Outcome ℕ
escape [] = failed Fault.open_escape
escape (e ∷ rest) = escape_of e rest

abbrev pub put : ℕ → Chars → Chars → Outcome Chars
put c out rest = got (c ∷ out) rest

-- `string`, behind the quote, on fuel.
unfoldable pub string : ℕ → Chars → Outcome Chars
string zero s = stuck
string (suc n) [] = failed Fault.open_string
string (suc n) (c ∷ cs) = elim (c == b'"') [
  | true ↦ got [] cs
  | false ↦ elim (c == b'\\') [
    | true ↦ and_then (escape cs) (λ x rest. and_then (string n rest) (put x))
    | false ↦ and_then (string n cs) (put c)
  ]
]

-- The arms of the `match` on the character at which a value begins.
pub data Begins : Type 0 where
  brace bracket quote letter_t letter_f letter_n digit other : Begins

unfoldable pub begins : ℕ → Begins
begins c =
    if c == b'{'
    then brace
    else if c == b'['
    then bracket
    else if c == b'"'
    then quote
    else if c == b't'
    then letter_t
    else if c == b'f'
    then letter_f
    else if c == b'n'
    then letter_n
    else if c == b'-' || within b'0' b'9' c
    then digit
    else other

-- The calls of `value`, `array` and `object` by each other; the last two stand behind their bracket or comma.
pub record Calls : Type 0 where
  pub value : Chars → Outcome Json
  pub array : Chars → Outcome Jsons
  pub object : Chars → Outcome Fields

-- `value`, behind white space.
unfoldable pub value_at : Numbers → Calls → Chars → Outcome Json
value_at f r [] = failed Fault.empty
value_at f r (c ∷ cs) = elim (begins c) [
  | brace ↦ and_then (r.object cs) (λ kv rest. got (Json.obj kv) rest)
  | bracket ↦ and_then (r.array cs) (λ a rest. got (Json.arr a) rest)
  | quote ↦ and_then (string (suc (length cs)) cs) (λ x rest. got (Json.str x) rest)
  | letter_t ↦ lit (utf8 "true") (Json.bool true) (c ∷ cs)
  | letter_f ↦ lit (utf8 "false") (Json.bool false) (c ∷ cs)
  | letter_n ↦ lit (utf8 "null") Json.null (c ∷ cs)
  | digit ↦ number f (c ∷ cs)
  | other ↦ failed (Fault.bad_char c)
]

-- Behind an item, and white space.
unfoldable pub array_next : Calls → Json → Chars → Outcome Jsons
array_next r v [] = failed Fault.open_array
array_next r v (c ∷ cs) = elim (c == b',') [
  | true ↦ and_then (r.array cs) (λ vs rest. got (item v vs) rest)
  | false ↦ if c == b']' then got (item v no_items) cs else failed Fault.no_array_comma
]

unfoldable pub array_at : Calls → Chars → Outcome Jsons
array_at r [] = failed Fault.open_array
array_at r (c ∷ cs) = elim (c == b']') [
  | true ↦ got no_items cs
  | false ↦ and_then (r.value (c ∷ cs)) (λ v rest. array_next r v (skip_ws rest))
]

-- Behind a field, and white space.
unfoldable pub object_next : Calls → Chars → Json → Chars → Outcome Fields
object_next r k v [] = failed Fault.open_object
object_next r k v (c ∷ cs) = elim (c == b',') [
  | true ↦ and_then (r.object cs) (λ kv rest. got (field k v kv) rest)
  | false ↦ if c == b'}' then got (field k v no_fields) cs else failed Fault.no_object_comma
]

-- Behind a key, and white space.
unfoldable pub field_at : Calls → Chars → Chars → Outcome Fields
field_at r k [] = failed Fault.no_colon
field_at r k (c ∷ cs) = elim (c == b':') [
  | true ↦ and_then (r.value cs) (λ v rest. object_next r k v (skip_ws rest))
  | false ↦ failed Fault.no_colon
]

unfoldable pub object_at : Calls → Chars → Outcome Fields
object_at r [] = failed Fault.open_object
object_at r (c ∷ cs) = elim (c == b'}') [
  | true ↦ got no_fields cs
  | false ↦ elim (c == b'"') [
    | true ↦ and_then (string (suc (length cs)) cs) (λ k rest. field_at r k (skip_ws rest))
    | false ↦ failed (Fault.bad_key c)
  ]
]

-- The calls, nested `n` deep.
unfoldable pub calls : Numbers → ℕ → Calls
calls f zero = record { value = λ s. stuck; array = λ s. stuck; object = λ s. stuck }
calls f (suc n) = record {
  value = λ s. value_at f (calls f n) (skip_ws s);
  array = λ s. array_at (calls f n) (skip_ws s);
  object = λ s. object_at (calls f n) (skip_ws s);
}

abbrev pub whole : Json → Chars → Outcome Json
whole v [] = got v []
whole v (c ∷ cs) = failed Fault.trailing

-- A bound on the calls that are nested in each other.
abbrev pub enough : Chars → ℕ
enough s = 2 * length s + 2

unfoldable pub parse : Numbers → Chars → Outcome Json
parse f s = and_then ((calls f (enough s)).value s) (λ v rest. whole v (skip_ws rest))
