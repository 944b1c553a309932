-- ===== src/Gateway/Json.antt =====
-- `serde_json::Value` as a data type, for the payloads that crates/gateway reads and writes. An
-- object is a table in the order of its keys' insertion. A number is a natural one; any other is
-- its text.
use watt_gateway.Prelude.{
  ℕ, String, Bool, Option, none, some, [], ◌∷◌, ◌≡◌, refl, ap, string_eq, Table, lookup,
}

mutual
  pub data Value : Type 0 where
    null : Value
    boolean : Bool → Value
    number : ℕ → Value
    other_number : String → Value
    string : String → Value
    array : Values → Value
    object : Fields → Value

  pub data Values : Type 0 where
    no_values : Values
    value_and : Value → Values → Values

  pub data Fields : Type 0 where
    no_fields : Fields
    field_and : String → Value → Fields → Fields

abbrev pub Map : Type 0
Map = Table String Value

unfoldable pub fields : Fields → Map
fields no_fields = []
fields (field_and key value rest) = (key, value) ∷ fields rest

unfoldable pub from_map : Map → Fields
from_map [] = no_fields
from_map ((key, value) ∷ rest) = field_and key value (from_map rest)

pub fields-from_map : (m : Map) → fields (from_map m) ≡ m
unfolding fields from_map
fields-from_map [] = refl
fields-from_map ((key, value) ∷ rest) = ap (λ (m : Map). (key, value) ∷ m) (fields-from_map rest)

-- `Value::as_object`
abbrev pub as_object : Value → Option Map
as_object (object f) = some (fields f)
as_object _ = none

-- `Value::as_str`
abbrev pub as_str : Value → Option String
as_str (string text) = some text
as_str _ = none

-- `Value::get` with a key
abbrev pub get_in : String → Option Map → Option Value
get_in key none = none
get_in key (some m) = lookup key m

abbrev pub get : String → Value → Option Value
get key value = get_in key (as_object value)
