-- ===== src/Tests/SqlServerEngine.antt =====
-- A cycle of the SQL Server engine.
use weighing_data_sync.Prelude.{
  ℕ, ◌-◌, ◌≤◌, ◌*◌, ◌≡◌, refl, some, [], ◌∷◌, List, map, Text, Pairs, codes, text_eq, arith,
}
use weighing_data_sync.Anyhow.{Error, Result, ok}
use weighing_data_sync.Json.{Fields, end, field, string, insert}
use weighing_data_sync.Text.{trim, is_whitespace}
use weighing_data_sync.Source.SqlServer.{WeightRow}
use weighing_data_sync.Prelude.Int.{pos, negsuc}
use weighing_data_sync.Source.SqlServer.Identifier.{weight_info_columns}
use weighing_data_sync.Source.SqlServer.Numeric.{format_numeric}
use weighing_data_sync.Source.SqlServer.Numeric.RoundTrip.{read-format_numeric}
use weighing_data_sync.Source.SqlServer.Numeric.Reading.{read_numeric}
use weighing_data_sync.Source.SqlServer.Row.{
  Row, SqlServerWeightRecord, string as cell_text, row_to_record, column_value_to_json, other_type,
}
use weighing_data_sync.Source.SqlServer.Row.Converts.{Converts, row_to_record-Converts}
use weighing_data_sync.Source.SqlServer.Fetch.{fetch_pending, is_pending, time_of}
use weighing_data_sync.Source.SqlServer.Fetch.Pending.{Fetches, fetch_pending-Fetches}
use weighing_data_sync.Sync.{SyncOutcome}
use weighing_data_sync.Sync.SqlServerEngine.{World, sync_once, upload_batch}
use weighing_data_sync.Sync.SqlServerEngine.Upload.{Delivers, upload_batch-Delivers}
use weighing_data_sync.Sync.SqlServerEngine.Cycle.{Cycle}
use weighing_data_sync.Sync.SqlServerEngine.Refines.{sync_once_follows}
use weighing_data_sync.Sync.SqlServerEngine.Safety.{Justified, sync_once_marks}
use weighing_data_sync.Sync.SqlServerEngine.Waiting.{waiting}
use weighing_data_sync.Sync.SqlServerEngine.Drain.{cycles, cycles-drain}
use weighing_data_sync.Tests.SqlServerSample.{
  driver, tsql, tsql-IsTsql, sql_engine, sql_engine-IsEngine, sql_engine-IsUp, weighed, world,
  world-Ready,
}

sync_once_follows_example :
    (r : Result Error SyncOutcome) × (w' : World ℕ) × (sync_once sql_engine world ≡ some (r, w'))
    × ((rows : List WeightRow) × (w'.db.rows ≡ rows) × Cycle sql_engine world.db r rows)
sync_once_follows_example = sync_once_follows sql_engine sql_engine-IsEngine world

sync_once_marks_example :
    (r : Result Error SyncOutcome) × (w' : World ℕ) × (sync_once sql_engine world ≡ some (r, w'))
    × Pairs (Justified sql_engine world.db) world.db.rows w'.db.rows
sync_once_marks_example = sync_once_marks sql_engine sql_engine-IsEngine world

cycles-drain_example :
    (w' : World ℕ) × (cycles sql_engine 2 world ≡ some w')
    × (waiting w'.db.rows ≤ waiting world.db.rows - 2 * sql_engine.sync.batch_size)
cycles-drain_example =
    cycles-drain sql_engine sql_engine-IsEngine sql_engine-IsUp 2 world refl world-Ready

upload_batch-Delivers_example :
    Delivers sql_engine (end ∷ []) 7 (upload_batch sql_engine (end ∷ []) 7)
upload_batch-Delivers_example = upload_batch-Delivers sql_engine (end ∷ []) 7

fetch_pending-Fetches_example :
    Fetches driver tsql tsql-IsTsql 1 world.db
      (fetch_pending driver tsql (codes "db:1433") 1 world.db)
fetch_pending-Fetches_example =
    fetch_pending-Fetches driver tsql tsql-IsTsql (codes "db:1433") 1 world.db

row_to_record-Converts_example :
    Converts driver
      (tsql.columns_of (weighed (codes "W1") (some 0) 9))
      (row_to_record driver (tsql.columns_of (weighed (codes "W1") (some 0) 9)))
unfolding text_eq
row_to_record-Converts_example =
    row_to_record-Converts driver (tsql.columns_of (weighed (codes "W1") (some 0) 9))
      (refl, (refl, tt))

-- What is sent of the older row, which is the first to go.
older_first :
    (fetch_pending driver tsql (codes "db:1433") 1 world.db).0
    ≡ ok (
        record {
          serial_no = codes "W2";
          data_ =
              field
                (codes "serialNo")
                (string (codes "W2"))
                (field (codes "grossTime") (string (5 ∷ [])) end);
        }
        ∷ [])
unfolding fetch_pending row_to_record column_value_to_json is_pending time_of trim is_whitespace
    insert
older_first = refl

-- 12.05, and minus 0.5.
format_numeric_tests :
    (format_numeric (record { value = pos 1205; scale = 2 }) ≡ codes "12.05")
    × (format_numeric (record { value = negsuc 4; scale = 1 }) ≡ codes "-0.5")
unfolding format_numeric
format_numeric_tests = (refl, refl)

read-format_numeric_example :
    read_numeric (format_numeric (record { value = negsuc 4; scale = 1 }))
    ≡ some (record { value = negsuc 4; scale = 1 })
read-format_numeric_example =
    read-format_numeric (record { value = negsuc 4; scale = 1 }) (omega arith)

-- A row with a text in each selected column, and its record.
abbrev full_row : Row
full_row = record {
  cells =
      map (λ name. record { name = name; column_type = other_type; value = cell_text (some name) })
        weight_info_columns;
}

abbrev fields_of : List Text → Fields
fields_of [] = end
fields_of (name ∷ names) = field name (string name) (fields_of names)

abbrev full_record : SqlServerWeightRecord
full_record = record { serial_no = codes "serialNo"; data_ = fields_of weight_info_columns }

converts_full : row_to_record driver full_row ≡ ok full_record
unfolding row_to_record column_value_to_json trim is_whitespace insert text_eq
converts_full = refl
