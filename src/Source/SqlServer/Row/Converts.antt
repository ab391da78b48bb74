-- ===== src/Source/SqlServer/Row/Converts.antt =====
-- What a row becomes: a JSON field for each column, or an error with its cause.
use weighing_data_sync.Prelude.{
  ◌≡◌, ◌≢◌, refl, sym, ◌∙◌, ap, ◌↔◌, ◌⊎◌, inl, inr, Bool, true, false, ◌||◌, Bool-cases,
  is_empty-cases, none, some, Option-cases, List, [], ◌∷◌, ◌++◌, append-nil, append_assoc, Text,
  codes, text_eq, text_eq_iff, contains, arith,
}
use weighing_data_sync.Anyhow.{Error, msg, Result, ok, err, Result-cases}
use weighing_data_sync.Text.{trim}
use weighing_data_sync.Json.{Value, Fields, null, end, field, insert, entries}
use weighing_data_sync.Source.SqlServer.Row.{
  Cell, Row, Driver, SqlServerWeightRecord, ColumnData, ColumnType, unnamed, is_null, json_number,
  format_datetime, column_value_to_json, insert_cells, row_to_record,
}

abbrev pub keys : Fields → List Text
keys end = []
keys (field k v fs) = k ∷ keys fs

abbrev pub names : List Cell → List Text
names [] = []
names (cell ∷ cells) = cell.name ∷ names cells

-- No name stands twice.
abbrev pub Distinct : List Text → Type 0
Distinct [] = Unit
Distinct (n ∷ ns) = (contains ns n ≡ false) × Distinct ns

or-eq-false : (a b : Bool) → (a || b) ≡ false → (a ≡ false) × (b ≡ false)
or-eq-false a b h = ground arith

insert-fresh :
    (key : Text) (v : Value) (fs : Fields)
    → contains (keys fs) key ≡ false
    → (entries (insert key v fs) ≡ entries fs ++ (key, v) ∷ [])
      × (keys (insert key v fs) ≡ keys fs ++ key ∷ [])
unfolding insert
insert-fresh key v end fresh = (refl, refl)
insert-fresh key v (field k w fs) fresh =
    let (other, rest) = or-eq-false (text_eq k key) (contains (keys fs) key) fresh in
    let (same_entries, same_keys) = insert-fresh key v fs rest in
    rw other (ap (λ l. (k, w) ∷ l) same_entries, ap (λ l. k ∷ l) same_keys)

text_eq-false_comm : (s t : Text) → text_eq s t ≡ false → text_eq t s ≡ false
text_eq-false_comm s t h = elim (Bool-cases (text_eq t s)) [
  | inr other ↦ other
  | inl same ↦ absurd (clash (text_eq s t) ((text_eq_iff s t).1 (sym ((text_eq_iff t s).0 same))) h)
]
  where
    clash : (b : Bool) → b ≡ true → b ≡ false → ⊥
    clash b t f = absurd (cc)

Distinct-middle :
    (xs : List Text) (n : Text) (ys : List Text) → Distinct (xs ++ n ∷ ys) → contains xs n ≡ false
Distinct-middle [] n ys h = refl
Distinct-middle (x ∷ xs) n ys (first, h) =
    rw (text_eq-false_comm n x (fresh_here xs first)) (Distinct-middle xs n ys h)
  where
    fresh_here : (zs : List Text) → contains (zs ++ n ∷ ys) x ≡ false → text_eq n x ≡ false
    fresh_here [] e = (or-eq-false (text_eq n x) (contains ys x) e).0
    fresh_here (z ∷ zs) e =
        fresh_here zs (or-eq-false (text_eq z x) (contains (zs ++ n ∷ ys) x) e).1

module _ (d : Driver) (row : Row) where
  -- The JSON value of a cell.
  abbrev pub value_of : Cell → Result Error Value
  value_of cell = column_value_to_json d row cell.name cell.column_type cell.value

  -- Each cell gives a field under its name.
  pub data Columns : List Cell → List (Text × Value) → Type 0 where
    no_columns : Columns [] []
    column :
        {cell : Cell} {cells : List Cell} {v : Value} {fs : List (Text × Value)}
        → value_of cell ≡ ok v
        → Columns cells fs
        → Columns (cell ∷ cells) ((cell.name, v) ∷ fs)

  -- Some cell has no JSON value; the first such one gives the error.
  pub data Fails : List Cell → Error → Type 0 where
    fails_here :
        {cell : Cell} {cells : List Cell} {e : Error}
        → value_of cell ≡ err e
        → Fails (cell ∷ cells) e
    fails_later :
        {cell : Cell} {cells : List Cell} {v : Value} {e : Error}
        → value_of cell ≡ ok v
        → Fails cells e
        → Fails (cell ∷ cells) e

  -- What inserting the cells comes to.
  abbrev Inserted : List Cell → Fields → Type 0
  Inserted cells fs =
      ((fs' : Fields) × (added : List (Text × Value)) × (insert_cells d row cells fs ≡ ok fs')
        × (entries fs' ≡ entries fs ++ added)
        × Columns cells added)
      ⊎ ((e : Error) × (insert_cells d row cells fs ≡ err e) × Fails cells e)

  insert_cells-Inserted :
      (cells : List Cell) (fs : Fields) → Distinct (keys fs ++ names cells) → Inserted cells fs
  unfolding insert_cells
  insert_cells-Inserted [] fs distinct =
      inl (fs, [], refl, sym (append-nil (entries fs)), no_columns)
  insert_cells-Inserted (cell ∷ cells) fs distinct = elim (Result-cases (value_of cell)) [
    | inr (e, failed) ↦ inr (e, rw (insert_cells, failed), fails_here failed)
    | inl (v, converted) ↦
        let (new_entries, new_keys) =
          insert-fresh cell.name v fs
            (Distinct-middle (keys fs) cell.name (names cells) distinct) in
        let rest =
          insert_cells-Inserted cells (insert cell.name v fs)
            (rw (new_keys, append_assoc (keys fs) (cell.name ∷ []) (names cells)) distinct) in
        elim rest [
          | inr (e, fails, later) ↦
              inr (e, rw (insert_cells, converted) fails, fails_later converted later)
          | inl (fs', added, inserts, joined, columns) ↦ inl (
            fs',
            (cell.name, v) ∷ added,
            rw (insert_cells, converted) inserts,
            joined
                ∙ ap (λ l. l ++ added) new_entries
                ∙ append_assoc (entries fs) ((cell.name, v) ∷ []) added,
            column converted columns,
          )
        ]
  ]

  -- What a row becomes.
  pub data Converts : Result Error SqlServerWeightRecord → Type 0 where
    converted :
        {serial_no : Text} {fields : Fields}
        → d.try_get_text row (codes "serialNo") ≡ ok (some serial_no)
        → trim serial_no ≢ []
        → Columns row.cells (entries fields)
        → Converts (ok (record { serial_no = serial_no; data_ = fields }))
    unread : {e : Error} → d.try_get_text row (codes "serialNo") ≡ err e → Converts (err e)
    missing :
        d.try_get_text row (codes "serialNo") ≡ ok none
        → Converts (err (msg (codes "tbl_weightInfo row missing serialNo")))
    blank :
        {serial_no : Text}
        → d.try_get_text row (codes "serialNo") ≡ ok (some serial_no)
        → trim serial_no ≡ []
        → Converts (err (msg (codes "tbl_weightInfo row missing serialNo")))
    unconverted :
        {serial_no : Text} {e : Error}
        → d.try_get_text row (codes "serialNo") ≡ ok (some serial_no)
        → Fails row.cells e
        → Converts (err e)

  with_serial_no-Converts :
      (serial_no : Text)
      → d.try_get_text row (codes "serialNo") ≡ ok (some serial_no)
      → Distinct (names row.cells)
      → Converts (row_to_record d row)
  unfolding row_to_record
  with_serial_no-Converts serial_no read distinct = elim (is_empty-cases (trim serial_no)) [
    | inl (nothing, empty) ↦ rw (row_to_record, read, empty) (blank read nothing)
    | inr (something, filled) ↦ elim (insert_cells-Inserted row.cells end distinct) [
      | inr (e, fails, why) ↦ rw (row_to_record, read, filled, fails) (unconverted read why)
      | inl (fields, added, inserts, joined, columns) ↦
          rw (row_to_record, read, filled, inserts) (converted read something (rw joined columns))
    ]
  ]

  -- A row whose columns have different names becomes a record with its serial number, which is not
  -- blank, and an object with exactly one field for each column, which holds the JSON value of the
  -- column; or it is refused because its serial number cannot be read, is null or is blank, or with
  -- the error of the first column that has no JSON value.
  pub row_to_record-Converts : Distinct (names row.cells) → Converts (row_to_record d row)
  unfolding row_to_record
  row_to_record-Converts distinct = elim (Result-cases (d.try_get_text row (codes "serialNo"))) [
    | inr (e, failed) ↦ rw (row_to_record, failed) (unread failed)
    | inl (found, read) ↦ elim (Option-cases found) [
      | inl nothing ↦ rw (row_to_record, read, nothing) (missing (read ∙ ap ok nothing))
      | inr (serial_no, something) ↦
          with_serial_no-Converts serial_no (read ∙ ap ok something) distinct
    ]
  ]

-- Values of the driver that the program names.
abbrev pub IsNamed : ColumnData → Type 0
IsNamed (unnamed t) = ⊥
IsNamed _ = Unit {0}

-- A column that the program knows is null in JSON exactly if it is null in the table, whatever its
-- column type is.
pub column_value_to_json-null_iff :
    (d : Driver) (row : Row) (name : Text) (ty : ColumnType) (value : ColumnData)
    → IsNamed value
    → (column_value_to_json d row name ty value ≡ ok null) ↔ (is_null value ≡ true)
unfolding column_value_to_json json_number format_datetime
column_value_to_json-null_iff d row name ty (unnamed t) k = absurd k
column_value_to_json-null_iff d row name ty value k = ground arith
