-- ===== src/Tests/Cache.antt =====
-- The cache: rows, queries and updates.
use weighing_data_sync.Prelude.{
  some, ◌≡◌, ◌↔◌, ◌⊎◌, refl, true, false, none, List, [], ◌∷◌, ◌++◌, codes, arith,
}
use weighing_data_sync.Anyhow.{Error, context, ok, err, is_ok}
use weighing_data_sync.Db.{
  fetch_pending, statement, select_due, is_due, mark_synced, mark_failed, insert_record,
}
use weighing_data_sync.Db.Collect.{collect}
use weighing_data_sync.Db.Models.{WeighingRecord, to_model, try_from, parse_rfc3339, new}
use weighing_data_sync.Db.Models.Float.{is_finite, is_negative}
use weighing_data_sync.Db.Models.RoundTrip.{try_from-to_model, new_iff}
use weighing_data_sync.Db.Models.WeightUnit
use weighing_data_sync.Db.Models.SyncStatus
use weighing_data_sync.Db.Models.SyncStatus.{synced, pending}
use weighing_data_sync.Db.Insert.{ids_of, insert_record-Turns}
use weighing_data_sync.Db.Store.{
  HasFault, SameData, Turns, has_id, update_ids, synced_record, failed_record, mark_synced-Turns,
  mark_failed-Turns,
}
use weighing_data_sync.Db.Fetch.{Batch, fetch_pending-Batch, query_failed}
use weighing_data_sync.Text.Order.{text_le}
use weighing_data_sync.Config.{DatabaseConfig}
use weighing_data_sync.Db.Connect.{Host, sqlite, sqlite_path, connect}
use weighing_data_sync.Db.Connect.Opens.{Opens}
use weighing_data_sync.Tests.Sorting.{sorting, sorting-IsSqlite}
use weighing_data_sync.Tests.Sample.{
  engine, one_symbol, one_symbol-IsCodec, cache, cache-Holds, reading, readings,
}

try_from-to_model_example :
    try_from one_symbol (to_model one_symbol (reading 11 8 pending)) ≡ ok (reading 11 8 pending)
try_from-to_model_example =
    try_from-to_model one_symbol one_symbol-IsCodec (reading 11 8 pending) (omega arith)

mark_synced-Turns_example :
    Turns one_symbol cache readings
      (update_ids (11 ∷ []) (synced_record 20) readings)
      (HasFault cache)
      (mark_synced one_symbol 20 (11 ∷ []) cache)
mark_synced-Turns_example =
    mark_synced-Turns one_symbol one_symbol-IsCodec cache readings cache-Holds 20 (11 ∷ [])
      (omega arith) (omega arith)

mark_failed-Turns_example :
    Turns one_symbol cache readings
      (update_ids (12 ∷ []) (failed_record 20 (codes "boom")) readings)
      (HasFault cache)
      (mark_failed one_symbol 20 (12 ∷ []) (codes "boom") cache)
mark_failed-Turns_example =
    mark_failed-Turns one_symbol one_symbol-IsCodec cache readings cache-Holds 20 (12 ∷ [])
      (codes "boom") (omega arith) (omega arith)

insert_record-Turns_example :
    Turns one_symbol cache readings
      (readings ++ reading 14 3 pending ∷ [])
      (HasFault cache ⊎ (has_id (ids_of readings) 14 ≡ true))
      (insert_record one_symbol (reading 14 3 pending) cache)
    × (has_id (ids_of readings) 14 ≡ true
        → (e : Error) × ((insert_record one_symbol (reading 14 3 pending) cache).0 ≡ err e))
insert_record-Turns_example =
    insert_record-Turns one_symbol one_symbol-IsCodec (reading 14 3 pending) (omega arith) cache
      readings cache-Holds

fetch_pending-Batch_example :
    SameData cache (fetch_pending one_symbol sorting 1 cache).1
    × (((e : Error) × ((fetch_pending one_symbol sorting 1 cache).0 ≡ err (context query_failed e))
          × HasFault cache)
        ⊎ ((batch : List WeighingRecord) × ((fetch_pending one_symbol sorting 1 cache).0 ≡ ok batch)
            × Batch one_symbol readings 1 batch))
fetch_pending-Batch_example =
    fetch_pending-Batch one_symbol one_symbol-IsCodec sorting sorting-IsSqlite readings 1 cache
      cache-Holds

-- The older one of the two that wait is fetched.
oldest : (fetch_pending one_symbol sorting 1 cache).0 ≡ ok (reading 12 5 SyncStatus.failed ∷ [])
unfolding fetch_pending statement select_due is_due collect to_model try_from parse_rfc3339
    WeightUnit.as_str SyncStatus.as_str WeightUnit.parse SyncStatus.parse text_le
oldest = refl

new_iff_example :
    let made =
      new engine.mass 7 9
        (codes "T1")
        (codes "S1")
        none
        0x7ff0_0000_0000_0000
        WeightUnit.kilogram
        8 in
    ((is_ok made ≡ true)
      ↔ ((is_finite 0x7ff0_0000_0000_0000 ≡ true) × (is_negative 0x7ff0_0000_0000_0000 ≡ false)))
    × ((r : WeighingRecord)
        → made ≡ ok r
        → (r.weight_kg ≡ 0x7ff0_0000_0000_0000)
          × (r.status ≡ SyncStatus.pending)
          × (r.retry_count ≡ 0)
          × (r.last_error ≡ none))
new_iff_example =
    new_iff engine.mass 7 9 (codes "T1") (codes "S1") none 0x7ff0_0000_0000_0000 WeightUnit.kilogram
      8

-- One table is missing, and all goes well.
abbrev host : Host
host = record {
  directories = [];
  files = [];
  tables = record {
    weighing_records = some cache.rows;
    status_index = false;
    inbound_payloads = none;
  };
  faults = [];
}

abbrev database : DatabaseConfig
database = record { url = codes "sqlite://data/cache.db?mode=rwc"; max_connections = 5 }

sqlite_path_tests :
    (sqlite_path (codes "sqlite://data/cache.db?mode=rwc") ≡ some (codes "data/cache.db"))
    × (sqlite_path (codes "sqlite:cache.db") ≡ some (codes "cache.db"))
    × (sqlite_path (codes "sqlite:?mode=memory") ≡ none)
    × (sqlite_path (codes "postgres://db") ≡ none)
unfolding sqlite_path
sqlite_path_tests = (refl, refl, refl, refl)

connect_tests :
    ((connect (λ path. some (codes "data")) sqlite database host).1.files
      ≡ codes "data/cache.db" ∷ [])
    × ((connect (λ path. some (codes "data")) sqlite database host).1.tables.inbound_payloads
        ≡ some [])
unfolding connect
connect_tests = (refl, refl)
