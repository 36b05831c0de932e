-- ===== src/Json/Write.antt =====
-- src/json.rs: `encode`, `write_to` and `write_json_string`.
use fly_lang.Json.{Json, Jsons, Fields, Numbers, Chars}
use fly_lang.Json.Number.{show_num}
use fly_lang.Prelude.{ℕ, ◌+◌, ◌-◌, ◌/◌, ◌%◌, ltb, ◌==◌, if◌then◌else◌, utf8, [], ◌∷◌, ◌++◌}

-- A digit of `{:x}`.
abbrev pub hex_digit : ℕ → ℕ
hex_digit d = if ltb d 10 then b'0' + d else b'a' + d - 10

-- `{:04x}` of a control character.
abbrev pub hex4 : ℕ → Chars
hex4 c = b'0' ∷ b'0' ∷ hex_digit (c / 16) ∷ hex_digit (c % 16) ∷ []

unfoldable pub write_char : ℕ → Chars
write_char c =
    if c == b'"'
    then b'\\' ∷ b'"' ∷ []
    else if c == b'\\'
    then b'\\' ∷ b'\\' ∷ []
    else if c == b'\n'
    then b'\\' ∷ b'n' ∷ []
    else if c == b'\r'
    then b'\\' ∷ b'r' ∷ []
    else if c == b'\t'
    then b'\\' ∷ b't' ∷ []
    else if ltb c 0x20
    then b'\\' ∷ b'u' ∷ hex4 c
    else c ∷ []

unfoldable pub write_chars : Chars → Chars
write_chars [] = []
write_chars (c ∷ cs) = write_char c ++ write_chars cs

unfoldable pub write_json_string : Chars → Chars
write_json_string s = b'"' ∷ (write_chars s ++ b'"' ∷ [])

unfoldable mutual
  pub write_to : Numbers → Json → Chars
  write_to f Json.null = utf8 "null"
  write_to f (Json.bool b) = if b then utf8 "true" else utf8 "false"
  write_to f (Json.num n) = show_num f n
  write_to f (Json.str s) = write_json_string s
  write_to f (Json.arr a) = b'[' ∷ (write_items f a ++ b']' ∷ [])
  write_to f (Json.obj kv) = b'{' ∷ (write_fields f kv ++ b'}' ∷ [])

  pub write_items : Numbers → Jsons → Chars
  write_items f Jsons.no_items = []
  write_items f (Jsons.item v vs) = write_to f v ++ more_items f vs

  -- Items behind the first, each behind a comma.
  pub more_items : Numbers → Jsons → Chars
  more_items f Jsons.no_items = []
  more_items f (Jsons.item v vs) = b',' ∷ (write_to f v ++ more_items f vs)

  pub write_fields : Numbers → Fields → Chars
  write_fields f Fields.no_fields = []
  write_fields f (Fields.field k v kv) =
      write_json_string k ++ (b':' ∷ (write_to f v ++ more_fields f kv))

  pub more_fields : Numbers → Fields → Chars
  more_fields f Fields.no_fields = []
  more_fields f (Fields.field k v kv) =
      b',' ∷ (write_json_string k ++ (b':' ∷ (write_to f v ++ more_fields f kv)))

-- `encode`
unfoldable pub encode : Numbers → Json → Chars
encode f v = write_to f v
