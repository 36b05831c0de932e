-- ===== src/Json.antt =====
-- src/json.rs: the values of JSON, which the language server reads and writes. A text is the list of its
-- characters, by their code points.
pub mod Number
pub mod Write
pub mod Read
pub mod Strings
pub mod Numerals
pub mod Items
pub mod RoundTrip
pub mod Ends
pub mod Total
use fly_lang.Prelude.{
  ℕ, Bool, true, false, ◌==◌, if◌then◌else◌, List, [], ◌∷◌, Option, none, some, bytes_eq,
}

abbrev pub Chars : Type 0
Chars = List ℕ

-- A number is the pattern of an `f64`.
mutual
  pub data Json : Type 0 where
    null : Json
    bool : Bool → Json
    num : ℕ → Json
    str : Chars → Json
    arr : Jsons → Json
    obj : Fields → Json

  pub data Jsons : Type 0 where
    no_items : Jsons
    item : Json → Jsons → Jsons

  pub data Fields : Type 0 where
    no_fields : Fields
    field : Chars → Json → Fields → Fields

-- What the module asks of the standard library's `f64`: `from_str`, and `{}` of a number.
pub record Numbers : Type 0 where
  pub from_str : Chars → Option ℕ
  pub display : ℕ → Chars

unfoldable pub find : Chars → Fields → Option Json
find key Fields.no_fields = none
find key (Fields.field k v kv) = let rest = find key kv in if bytes_eq k key then some v else rest

unfoldable pub get : Json → Chars → Option Json
get (Json.obj kv) key = find key kv
get _ key = none
