-- ===== src/Json.antt =====
-- `serde_json::Value`. An object is its fields, each key once; a number is a natural number, a
-- negative one or an `f64`.
pub mod Read
use weighing_data_sync.Prelude.{
  ℕ, Bool, Option, none, some, if◌then◌else◌, List, [], ◌∷◌, Text, text_eq,
}

pub data Number : Type 0 where
  natural : ℕ → Number
  negative : ℕ → Number
  float : ℕ → Number

mutual
  pub data Value : Type 0 where
    null : Value
    bool : Bool → Value
    number : Number → Value
    string : Text → Value
    array : Items → Value
    object : Fields → Value

  pub data Items : Type 0 where
    nil : Items
    cons : Value → Items → Items

  pub data Fields : Type 0 where
    end : Fields
    field : Text → Value → Fields → Fields

abbrev pub items : Items → List Value
items nil = []
items (cons v vs) = v ∷ items vs

unfoldable pub lookup : Text → Fields → Option Value
lookup key end = none
lookup key (field k v fs) = if text_eq k key then some v else lookup key fs

-- `Value::get` of a key, `as_str` and `as_array`.
unfoldable pub get : Value → Text → Option Value
unfolding lookup
get (object fs) key = lookup key fs
get _ key = none

abbrev pub as_str : Value → Option Text
as_str (string t) = some t
as_str _ = none

abbrev pub as_array : Value → Option (List Value)
as_array (array vs) = some (items vs)
as_array _ = none

-- `Map::insert`: a key that is there gets the new value. The library lists a `Map` by its
-- keys in order; here the fields stand as they were inserted, so that only the fields of an object and
-- not their order are those of the program.
unfoldable pub insert : Text → Value → Fields → Fields
unfolding text_eq
insert key v end = field key v end
insert key v (field k w fs) = if text_eq k key then field k v fs else field k w (insert key v fs)

abbrev pub entries : Fields → List (Text × Value)
entries end = []
entries (field k v fs) = (k, v) ∷ entries fs
