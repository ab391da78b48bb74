-- ===== src/Entity/WeightInfo/Uploaded.antt =====
-- What is uploaded of a row has the fields of the entity.
use weighing_data_sync.Prelude.{
  ◌≡◌, refl, Bool, true, false, Bool-cases, not, ◌&&◌, inl, inr, arith, sym, ◌∙◌, ap, List, [], ◌∷◌,
  map, Text, text_eq, contains,
}
use weighing_data_sync.Anyhow.{Error, Result, ok, err}
use weighing_data_sync.Json.{Value, Fields, end, field, entries}
use weighing_data_sync.Source.SqlServer.Identifier.{weight_info_columns}
use weighing_data_sync.Source.SqlServer.Row.{
  Cell, Row, Driver, SqlServerWeightRecord, row_to_record,
}
use weighing_data_sync.Source.SqlServer.Row.Converts.{
  keys, names, Distinct, Columns, no_columns, column, Converts, converted, row_to_record-Converts,
}
use weighing_data_sync.Entity.WeightInfo.{model_columns}

abbrev pub names_of_entries : List (Text × Value) → List Text
names_of_entries es = map (λ e. e.0) es

keys-entries : (fs : Fields) → keys fs ≡ names_of_entries (entries fs)
keys-entries end = refl
keys-entries (field k v fs) = ap (λ l. k ∷ l) (keys-entries fs)

-- The columns that are selected are those of the entity, and no name stands twice.
selected_columns : map (λ c. c.name) model_columns ≡ weight_info_columns
selected_columns = refl

are_distinct : List Text → Bool
are_distinct [] = true
are_distinct (n ∷ ns) = not (contains ns n) && are_distinct ns

are_distinct-Distinct : (ns : List Text) → are_distinct ns ≡ true → Distinct ns
unfolding are_distinct
are_distinct-Distinct [] h = tt
are_distinct-Distinct (n ∷ ns) h = elim (Bool-cases (contains ns n)) [
  | inl again ↦ absurd (repeated again)
  | inr fresh ↦ (fresh, are_distinct-Distinct ns (later fresh))
]
  where
    repeated : contains ns n ≡ true → ⊥
    repeated again = ground (arith, h, again)

    later : contains ns n ≡ false → are_distinct ns ≡ true
    later fresh = ground (arith, h, fresh)

weight_info_columns-Distinct : Distinct weight_info_columns
unfolding text_eq are_distinct
weight_info_columns-Distinct = are_distinct-Distinct weight_info_columns refl

module _ (d : Driver) (row : Row) where
  Columns-names :
      (cells : List Cell) (es : List (Text × Value))
      → Columns d row cells es
      → names_of_entries es ≡ names cells
  Columns-names cells es no_columns = refl
  Columns-names cells es (column {cell} {cells = rest} {fs} shown more) =
      ap (λ l. cell.name ∷ l) (Columns-names rest fs more)

  Converts-keys :
      (out : Result Error SqlServerWeightRecord) (r : SqlServerWeightRecord)
      → Converts d row out
      → out ≡ ok r
      → keys r.data_ ≡ names row.cells
  Converts-keys (ok r') r (converted read filled cells) same =
      let made : r' ≡ r = cc in
      sym (ap (λ (x : SqlServerWeightRecord). keys x.data_) made)
      ∙ keys-entries r'.data_
      ∙ Columns-names row.cells (entries r'.data_) cells
  Converts-keys (err x) r why same = absurd cc

  -- A row with the columns that the program selects has an object with exactly the fields of the
  -- entity uploaded for it, under the names of its columns. Their order is the one in which the model
  -- keeps the fields of an object.
  row_to_record-keys :
      (r : SqlServerWeightRecord)
      → names row.cells ≡ weight_info_columns
      → row_to_record d row ≡ ok r
      → keys r.data_ ≡ map (λ c. c.name) model_columns
  row_to_record-keys r selected made =
      Converts-keys (row_to_record d row) r
        (row_to_record-Converts d row (rw selected weight_info_columns-Distinct)) made
      ∙ selected
      ∙ sym selected_columns
