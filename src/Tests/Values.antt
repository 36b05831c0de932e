-- ===== src/Tests/Values.antt =====
-- Values of JSON: runs and instances.
use fly_lang.Json.{
  Json, null, num, str, arr, obj, no_items, item, no_fields, field, Numbers, get, find,
}
use fly_lang.Json.Items.{AreShown}
use fly_lang.Json.Number.{
  is_finite, scaled, fract_is_zero, magnitude, as_i64, nat_digits, show_nat, show_int, is_whole,
  show_num,
}
use fly_lang.Json.Numerals.{IsKept}
use fly_lang.Json.Read.{
  got, failed, stuck, Fault, and_then, skip_ws, strip, lit, hex_value, unicode_value, byte_len,
  unicode, escape_of, escape, string, begins, value_at, array_next, array_at, object_next, field_at,
  object_at, calls, parse, number_span, number,
}
use fly_lang.Json.RoundTrip.{parse-encode}
use fly_lang.Json.Total.{parse-total}
use fly_lang.Json.Write.{
  write_char, write_chars, write_json_string, write_to, write_items, more_items, write_fields,
  more_fields, encode,
}
use fly_lang.Prelude.{ℕ, if◌then◌else◌, arith, utf8, bytes_eq, [], ◌∷◌, some, ◌≡◌, ◌≢◌, refl}

abbrev five : ℕ
five = 0x4014000000000000

-- -2.5
abbrev half : ℕ
half = 0xC004000000000000

-- The texts of two numbers.
abbrev some_numbers : Numbers
some_numbers = record {
  from_str = λ s. if bytes_eq s (utf8 "-2.5") then some half else some five;
  display = λ n. utf8 "-2.5";
}

-- A field of an array and one of a text with a control character and a line break.
abbrev message : Json
message = obj (
    field (utf8 "a") (arr (item (num five) (item (num half) (item null no_items))))
      (field (utf8 "b") (str (1 ∷ b'\n' ∷ [])) no_fields))

message_text : encode some_numbers message ≡ utf8 "{\"a\":[5,-2.5,null],\"b\":\"\\u0001\\n\"}"
unfolding show_num is_whole fract_is_zero is_finite scaled as_i64 magnitude show_int show_nat
    nat_digits write_char write_chars write_json_string write_to write_items more_items write_fields
    more_fields encode bytes_eq
message_text = refl

five-IsKept : IsKept some_numbers five
unfolding is_whole fract_is_zero is_finite scaled magnitude show_int show_nat nat_digits bytes_eq
five-IsKept = record {
  inside = λ h. (omega arith, λ e. omega (arith, e));
  reads_int = λ h e. refl;
  reads_float = λ h. cc;
  float_chars = λ h. absurd cc;
}

half-IsKept : IsKept some_numbers half
unfolding is_whole fract_is_zero is_finite scaled bytes_eq
half-IsKept = record {
  inside = λ h. absurd cc;
  reads_int = λ h. absurd cc;
  reads_float = λ h. refl;
  float_chars = λ h. ((refl, (refl, (refl, (refl, tt)))), refl);
}

message-AreShown : AreShown some_numbers message
message-AreShown = ((five-IsKept, (half-IsKept, (tt, tt))), (tt, tt))

-- A number past an i64 is written as the largest one, and the sign of a zero is lost.
cut_off :
    (show_num some_numbers 0x43E158E460913D00 ≡ utf8 "9223372036854775807")
    × (show_num some_numbers 0x8000000000000000 ≡ utf8 "0")
unfolding show_num is_whole fract_is_zero is_finite scaled as_i64 magnitude show_int show_nat
    nat_digits
cut_off = (refl, refl)

parse-encode_example : parse some_numbers (encode some_numbers message) ≡ got message []
parse-encode_example = parse-encode some_numbers message message-AreShown

parse-total_example : parse some_numbers (utf8 "[1, {") ≢ stuck
parse-total_example = parse-total some_numbers (utf8 "[1, {")

errors :
    (parse some_numbers (utf8 "[1, {") ≡ failed Fault.open_object)
    × (parse some_numbers (utf8 "[1 2]") ≡ failed Fault.no_array_comma)
    × (parse some_numbers (utf8 "true x") ≡ failed Fault.trailing)
    × (parse some_numbers (utf8 " [ 5 , ] ") ≡ got (arr (item (num five) no_items)) [])
    × (parse some_numbers (utf8 "\"\\u+041\"") ≡ got (str (utf8 "A")) [])
    × (parse some_numbers (utf8 "\"\\ud800\"") ≡ failed Fault.bad_point)
unfolding parse calls value_at array_at array_next object_at object_next field_at number number_span
    lit strip skip_ws and_then begins string escape escape_of unicode byte_len unicode_value
    hex_value bytes_eq
errors = (refl, refl, refl, refl, refl, refl)

found : get message (utf8 "b") ≡ some (str (1 ∷ b'\n' ∷ []))
unfolding get find bytes_eq
found = refl
