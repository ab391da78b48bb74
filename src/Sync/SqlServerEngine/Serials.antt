-- ===== src/Sync/SqlServerEngine/Serials.antt =====
-- The serial numbers that the receiving route finds in what the engine uploads.
use weighing_data_sync.Prelude.{
  ◌≡◌, refl, sym, ◌∙◌, ap, inl, inr, Bool-cases, true, false, Option, none, some, if◌then◌else◌,
  List, [], ◌∷◌, map, Text, codes, text_eq,
}
use weighing_data_sync.Anyhow.{ok, ok_injective}
use weighing_data_sync.Json.{Value, Fields, object, string, end, field, lookup, get, entries}
use weighing_data_sync.Server.{serial_no, filter_map}
use weighing_data_sync.Source.SqlServer.{WeightRow}
use weighing_data_sync.Source.SqlServer.Row.{
  Cell, Row, SqlServerWeightRecord, ColumnData, column_value_to_json, some_value_to_json,
}
use weighing_data_sync.Source.SqlServer.Row as row
use weighing_data_sync.Source.SqlServer.Row.Converts.{Columns, column, converted}
use weighing_data_sync.Source.SqlServer.Fetch.Selected.{Records, no_rows, a_record}
use weighing_data_sync.Sync.SqlServerEngine.{SqlServerSyncEngine, serial_nos_of}

-- The first cell of that name holds the text.
abbrev pub SerialCell : Text → List Cell → Type 0
SerialCell t [] = ⊥
SerialCell t (cell ∷ cells) = elim (text_eq cell.name (codes "serialNo")) [
  | true ↦ cell.value ≡ row.string (some t)
  | false ↦ SerialCell t cells
]

abbrev find : List (Text × Value) → Option Value
find [] = none
find ((k, v) ∷ es) = if text_eq k (codes "serialNo") then some v else find es

lookup-entries : (fs : Fields) → lookup (codes "serialNo") fs ≡ find (entries fs)
unfolding lookup
lookup-entries end = refl
lookup-entries (field k v fs) = rw (lookup-entries fs)

module _ {Body S : Type 0} (e : SqlServerSyncEngine Body S) where
  text_cell :
      (r : Row) (cell : Cell) (t : Text) (v : Value)
      → cell.value ≡ row.string (some t)
      → column_value_to_json e.driver r cell.name cell.column_type cell.value ≡ ok v
      → string t ≡ v
  unfolding column_value_to_json
  text_cell r cell t v holds converts =
      let shown =
        ap (column_value_to_json e.driver r cell.name cell.column_type) (sym holds) ∙ converts in
      ok_injective _ (string t) v refl shown

  Columns-find :
      (r : Row) (cells : List Cell) (es : List (Text × Value)) (t : Text)
      → Columns e.driver r cells es
      → SerialCell t cells
      → find es ≡ some (string t)
  Columns-find r [] es t all h = absurd h
  Columns-find r (cell ∷ cells) es t (column {v} {fs} shown more) h =
      elim (Bool-cases (text_eq cell.name (codes "serialNo"))) [
        | inl here ↦
            rw here (ap some (sym (text_cell r cell t v (rw (SerialCell, here) at h) shown)))
        | inr other ↦ rw other (Columns-find r cells fs t more (rw (SerialCell, other) at h))
      ]

  serial_no-object :
      (r : Row) (fields : Fields) (t : Text)
      → Columns e.driver r r.cells (entries fields)
      → SerialCell t r.cells
      → serial_no (object fields) ≡ some t
  unfolding serial_no get
  serial_no-object r fields t all h =
      rw (serial_no, lookup-entries fields, Columns-find r r.cells (entries fields) t all h)

  -- The column of the serial number holds what the driver gives for it.
  abbrev pub SerialColumn : Type 0
  SerialColumn =
      (r : WeightRow) (t : Text)
      → e.driver.try_get_text (e.tsql.columns_of r) (codes "serialNo") ≡ ok (some t)
      → SerialCell t (e.tsql.columns_of r).cells

  -- The receiving route finds the serial numbers of the records in their objects.
  pub serial_nos-objects :
      SerialColumn
      → (rows : List WeightRow) (records : List SqlServerWeightRecord)
      → Records e.driver e.tsql rows records
      → filter_map serial_no (map object (map (λ r. r.data_) records)) ≡ serial_nos_of records
  serial_nos-objects serials [] records no_rows = refl
  serial_nos-objects serials (r ∷ rows) records
        (a_record {rs} (converted {serial_no = t} {fields} read something all) more) =
      rw (filter_map, serial_no-object (e.tsql.columns_of r) fields t all (serials r t read))
        (ap (λ l. t ∷ l) (serial_nos-objects serials rows rs more))
