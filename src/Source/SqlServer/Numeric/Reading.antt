-- ===== src/Source/SqlServer/Numeric/Reading.antt =====
-- How a decimal literal is read.
use weighing_data_sync.Prelude.{
  Bool, true, false, not, ◌&&◌, if◌then◌else◌, Option, none, some, [], ◌∷◌, ◌++◌, is_empty, all,
  length, Text,
}
use weighing_data_sync.Prelude.Int.{signed}
use weighing_data_sync.Text.{strip_prefix, split_once}
use weighing_data_sync.Text.Decimal.{is_digit, value_from}
use weighing_data_sync.Source.SqlServer.Numeric.{Numeric}

abbrev pub is_number : Text → Bool
is_number s = not (is_empty s) && all is_digit s

-- Digits, or digits around a point, with the sign that was read.
abbrev pub read_magnitude : Bool → Text → Option Numeric
read_magnitude negative s = elim (split_once b'.' s) [
  | none ↦
      if is_number s
      then some (record { value = signed negative (value_from 0 s); scale = 0 })
      else none
  | some (whole, fraction) ↦
      if is_number whole && is_number fraction
      then some (record {
        value = signed negative (value_from 0 (whole ++ fraction));
        scale = length fraction;
      })
      else none
]

-- How a decimal literal is read.
abbrev pub read_numeric : Text → Option Numeric
read_numeric s = elim (strip_prefix (b'-' ∷ []) s) [
  | none ↦ read_magnitude false s
  | some rest ↦ read_magnitude true rest
]
