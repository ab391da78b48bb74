-- ===== src/Source/SqlServer/Row.antt =====
-- source/sqlserver.rs: from a row of the driver to a record with a JSON object. An `f32`, an `f64` and
-- a GUID are their bit patterns; a date or a time is read through the row, not from its cell.
pub mod Converts
use weighing_data_sync.Prelude.{
  ℕ, suc, Bool, true, false, not, if◌then◌else◌, Option, none, some, option_filter, List, [], ◌∷◌,
  ◌++◌, is_empty, length, Text, codes, text_eq,
}
use weighing_data_sync.Prelude.Int.{ℤ, pos, negsuc}
use weighing_data_sync.Anyhow.{Error, msg, Result, ok, err, ok_or, ◌>>=◌}
use weighing_data_sync.Text.{trim}
use weighing_data_sync.Text.Decimal.{decimal}
use weighing_data_sync.Json.{
  Value, Fields, Number, null, bool, number, object, natural, negative, float, end, insert,
}
use weighing_data_sync.Db.Models.Float.{is_finite}
use weighing_data_sync.Source.SqlServer.Numeric.{Numeric, format_numeric}

-- The driver's values; `unnamed` is any that the program does not name, with its `Debug` text.
pub data ColumnData : Type 0 where
  u8 : Option ℕ → ColumnData
  i16 i32 i64 : Option ℤ → ColumnData
  f32 f64 : Option ℕ → ColumnData
  bit : Option Bool → ColumnData
  string : Option Text → ColumnData
  guid : Option ℕ → ColumnData
  binary : Option Text → ColumnData
  numeric : Option Numeric → ColumnData
  xml : Option Text → ColumnData
  date_time small_date_time time date date_time2 date_time_offset : Option ℕ → ColumnData
  unnamed : Text → ColumnData

-- The types of columns that the program tells apart.
pub data ColumnType : Type 0 where
  decimaln numericn money money4 other_type : ColumnType

pub record Cell : Type 0 where
  pub name : Text
  pub column_type : ColumnType
  pub value : ColumnData

pub record Row : Type 0 where
  pub cells : List Cell

-- What the driver and the number formats give: `try_get` of a text, of a decimal (as it is printed)
-- and of a date with a time, and prints.
pub record Driver : Type 0 where
  pub try_get_text : Row → Text → Result Error (Option Text)
  pub try_get_decimal : Row → Text → Result Error (Option Text)
  pub try_get_datetime : Row → Text → Result Error (Option ℕ)
  -- `%Y-%m-%d %H:%M:%S`.
  pub print_datetime : ℕ → Text
  pub print_guid : ℕ → Text
  pub print_f64 : ℕ → Text
  pub widen : ℕ → ℕ

pub record SqlServerWeightRecord : Type 0 where
  pub serial_no : Text
  pub data_ : Fields

abbrev pub is_none {ℓ} : {A : Type ℓ} → Option A → Bool
is_none none = true
is_none (some a) = false

unfoldable pub is_null : ColumnData → Bool
is_null (u8 v) = is_none v
is_null (i16 v) = is_none v
is_null (i32 v) = is_none v
is_null (i64 v) = is_none v
is_null (f32 v) = is_none v
is_null (f64 v) = is_none v
is_null (bit v) = is_none v
is_null (string v) = is_none v
is_null (guid v) = is_none v
is_null (binary v) = is_none v
is_null (numeric v) = is_none v
is_null (xml v) = is_none v
is_null (date_time v) = is_none v
is_null (small_date_time v) = is_none v
is_null (time v) = is_none v
is_null (date v) = is_none v
is_null (date_time2 v) = is_none v
is_null (date_time_offset v) = is_none v
is_null (unnamed t) = false

-- `Number::from` of a signed integer.
abbrev pub number_of : ℤ → Number
number_of (pos n) = natural n
number_of (negsuc n) = negative (suc n)

module _ (d : Driver) where
  unfoldable pub json_number : ℕ → Result Error Value
  unfolding is_finite
  json_number x =
      if is_finite x
      then ok (number (float x))
      else err (msg (codes "invalid floating point value " ++ d.print_f64 x))

  unfoldable pub format_datetime : Row → Text → Result Error Text
  format_datetime row column = do
    found ← d.try_get_datetime row column
    value ← ok_or (codes "datetime column " ++ (column ++ codes " is null")) found
    ok (d.print_datetime value)

  unfoldable pub get_decimal : Row → Text → Result Error Value
  get_decimal row column = do
    found ← d.try_get_decimal row column
    ok (elim found [ none ↦ null | some t ↦ Value.string t ])

  abbrev pub datetime_value : Row → Text → Result Error Value
  datetime_value row column = do t ← format_datetime row column; ok (Value.string t)

  -- The last arm: a value that is not named is read by the type of its column.
  abbrev pub by_type : Row → Text → ColumnType → Text → Result Error Value
  by_type row column decimaln t = get_decimal row column
  by_type row column numericn t = get_decimal row column
  by_type row column money t = get_decimal row column
  by_type row column money4 t = get_decimal row column
  by_type row column other_type t = ok (Value.string t)

  -- A value that is not null. A null one has been answered before.
  unfoldable pub some_value_to_json : Row → Text → ColumnType → ColumnData → Result Error Value
  unfolding json_number format_datetime get_decimal
  some_value_to_json row column ty (u8 (some v)) = ok (number (natural v))
  some_value_to_json row column ty (i16 (some v)) = ok (number (number_of v))
  some_value_to_json row column ty (i32 (some v)) = ok (number (number_of v))
  some_value_to_json row column ty (i64 (some v)) = ok (number (number_of v))
  some_value_to_json row column ty (f32 (some v)) = json_number (d.widen v)
  some_value_to_json row column ty (f64 (some v)) = json_number v
  some_value_to_json row column ty (bit (some v)) = ok (bool v)
  some_value_to_json row column ty (string (some v)) = ok (Value.string v)
  some_value_to_json row column ty (guid (some v)) = ok (Value.string (d.print_guid v))
  some_value_to_json row column ty (numeric (some v)) = ok (Value.string (format_numeric v))
  some_value_to_json row column ty (xml (some v)) = ok (Value.string v)
  some_value_to_json row column ty (binary (some v)) =
      ok (Value.string (codes "<" ++ (decimal (length v) ++ codes " bytes>")))
  some_value_to_json row column ty (date_time (some v)) = datetime_value row column
  some_value_to_json row column ty (small_date_time (some v)) = datetime_value row column
  some_value_to_json row column ty (time (some v)) = datetime_value row column
  some_value_to_json row column ty (date (some v)) = datetime_value row column
  some_value_to_json row column ty (date_time2 (some v)) = datetime_value row column
  some_value_to_json row column ty (date_time_offset (some v)) = datetime_value row column
  some_value_to_json row column ty (unnamed t) = by_type row column ty t
  some_value_to_json row column ty _ = ok null

  unfoldable pub column_value_to_json : Row → Text → ColumnType → ColumnData → Result Error Value
  unfolding is_null some_value_to_json
  column_value_to_json row column ty value =
      if is_null value then ok null else some_value_to_json row column ty value

  -- The loop over the cells of a row.
  unfoldable pub insert_cells : Row → List Cell → Fields → Result Error Fields
  unfolding column_value_to_json
  insert_cells row [] fs = ok fs
  insert_cells row (cell ∷ cells) fs = do
    value ← column_value_to_json row cell.name cell.column_type cell.value
    insert_cells row cells (insert cell.name value fs)

  abbrev pub is_filled : Text → Bool
  is_filled value = not (is_empty (trim value))

  unfoldable pub row_to_record : Row → Result Error SqlServerWeightRecord
  unfolding insert_cells
  row_to_record row = do
    found ← d.try_get_text row (codes "serialNo")
    serial_no ← ok_or (codes "tbl_weightInfo row missing serialNo") (option_filter is_filled found)
    fields ← insert_cells row row.cells end
    ok (record { serial_no = serial_no; data_ = fields })
