-- ===== src/Json/Read.antt =====
-- How a derived `Deserialize` reads a field with `#[serde(default)]`: a missing field is the
-- default, and a value of another kind is an error.
use weighing_data_sync.Prelude.{ℕ, Bool, Option, none, some, List, [], Text, codes}
use weighing_data_sync.Anyhow.{Error, msg, Result, ok, err}
use weighing_data_sync.Json.{Value, null, bool, number, string, array, items, natural}

abbrev wrong_type : Error
wrong_type = msg (codes "invalid type")

abbrev pub read_bool : Option Value → Result Error (Option Bool)
read_bool none = ok none
read_bool (some null) = ok none
read_bool (some (bool b)) = ok (some b)
read_bool (some _) = err wrong_type

abbrev pub read_text : Option Value → Result Error (Option Text)
read_text none = ok none
read_text (some null) = ok none
read_text (some (string t)) = ok (some t)
read_text (some _) = err wrong_type

abbrev pub read_usize : Option Value → Result Error (Option ℕ)
read_usize none = ok none
read_usize (some null) = ok none
read_usize (some (number (natural n))) = ok (some n)
read_usize (some _) = err wrong_type

abbrev pub read_list : Option Value → Result Error (List Value)
read_list none = ok []
read_list (some (array vs)) = ok (items vs)
read_list (some _) = err wrong_type
