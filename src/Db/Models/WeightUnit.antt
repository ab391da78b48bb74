-- ===== src/Db/Models/WeightUnit.antt =====
-- db/models.rs: the unit of a reading.
use weighing_data_sync.Prelude.{◌≡◌, refl, ◌||◌, if◌then◌else◌, Text, codes, text_eq, ◌++◌}
use weighing_data_sync.Anyhow.{Error, msg, Result, ok, err}

pub data WeightUnit : Type 0 where
  kilogram pound : WeightUnit

unfoldable pub as_str : WeightUnit → Text
as_str kilogram = codes "kilogram"
as_str pound = codes "pound"

unfoldable pub parse : Text → Result Error WeightUnit
unfolding text_eq
parse value =
    if text_eq value (codes "kilogram") || text_eq value (codes "kg")
    then ok kilogram
    else if text_eq value (codes "pound")
        || text_eq value (codes "lb")
        || text_eq value (codes "lbs")
    then ok pound
    else err (msg (codes "unsupported weight unit " ++ value))

pub parse-as_str : (u : WeightUnit) → parse (as_str u) ≡ ok u
unfolding parse as_str
parse-as_str kilogram = refl
parse-as_str pound = refl
