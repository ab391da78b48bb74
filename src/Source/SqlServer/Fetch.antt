-- ===== src/Source/SqlServer/Fetch.antt =====
-- source/sqlserver.rs: the query for pending rows.
pub mod Selected
pub mod Pending
use weighing_data_sync.Prelude.{
  ℕ, Bool, ◌&&◌, ◌==◌, Option, none, some, or_else, unwrap_or, List, keep, map, take, Text, codes,
}
use weighing_data_sync.Anyhow.{Error, Result}
use weighing_data_sync.Db.Collect.{collect}
use weighing_data_sync.Source.SqlServer.{WeightRow, Database, attempt, and_then, connect, same_rows}
use weighing_data_sync.Source.SqlServer.Row.{Row, Driver, SqlServerWeightRecord, row_to_record}

-- What the server and the driver do with rows: how they are ordered, and what the driver gives for
-- the selected columns of one.
pub record Tsql : Type 0 where
  pub order_by_time : List WeightRow → List WeightRow
  pub columns_of : WeightRow → Row

-- `ISNULL([isUploadCloud], 0) = 0 AND ISNULL([del_flag], 0) = 0`.
unfoldable pub is_pending : WeightRow → Bool
is_pending row = unwrap_or row.is_upload_cloud 0 == 0 && unwrap_or row.del_flag 0 == 0

-- `ISNULL([updateTime], ISNULL([secondTime], ISNULL([firstTime], [grossTime])))`.
unfoldable pub time_of : WeightRow → Option ℕ
time_of row =
    or_else row.update_time (or_else row.second_time (or_else row.first_time row.gross_time))

-- `SELECT TOP (…) … WHERE … ORDER BY …`.
unfoldable pub select_pending : Tsql → ℕ → List WeightRow → List WeightRow
select_pending q limit rows = take limit (q.order_by_time (keep is_pending rows))

module _ (d : Driver) (q : Tsql) where
  -- The rows that the query returned, converted.
  unfoldable pub to_records : List WeightRow → Result Error (List SqlServerWeightRecord)
  unfolding collect
  to_records rows = collect (row_to_record d) (map q.columns_of rows)

  unfoldable pub fetch_pending :
      (address : Text) → ℕ → Database → Result Error (List SqlServerWeightRecord) × Database
  unfolding connect attempt select_pending to_records
  fetch_pending address limit db = and_then (connect address db) (λ opened.
      and_then (attempt (codes "failed to query tbl_weightInfo") same_rows opened) (λ queried.
        and_then (attempt (codes "failed to read tbl_weightInfo rows") same_rows queried)
          (λ read. (to_records (select_pending q limit queried.rows), read))))
