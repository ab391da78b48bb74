-- ===== src/Sync/SqlServerEngine/Cycle.antt =====
-- The specification of a cycle of the SQL Server engine, on the rows of the server.
use weighing_data_sync.Prelude.{
  ◌≤◌, ◌≡◌, ◌≢◌, ◌⊎◌, false, if◌then◌else◌, Option, some, List, [], ◌++◌, map, Text, length,
}
use weighing_data_sync.Anyhow.{Error, context, Result, ok, err}
use weighing_data_sync.Source.SqlServer.{WeightRow, Database, marked}
use weighing_data_sync.Source.SqlServer.Steps.{HasFault}
use weighing_data_sync.Source.SqlServer.Row.{SqlServerWeightRecord}
use weighing_data_sync.Source.SqlServer.Fetch.Selected.{IsTsql, Selected, Records, Refused}
use weighing_data_sync.Sync.{SyncOutcome, no_data}
use weighing_data_sync.Sync.Error.{UploadError, cause}
use weighing_data_sync.Sync.Retry.Laws.{IsTimer}
use weighing_data_sync.Sync.SqlServerEngine.{
  SqlServerSyncEngine, SqlServerUploadResponse, upload_batch, serial_nos_of, gave_up_text,
}

-- What the engine relies on: the server orders rows and names columns as documented, and the clock
-- does not run backwards while a request is under way.
pub record IsEngine {Body S : Type 0} (e : SqlServerSyncEngine Body S) : Type 0 where
  pub tsql : IsTsql e.tsql
  pub timer : IsTimer e.cloud.timer
  pub send_later :
      (endpoint : Text) (key : Option Text) (body : Body) (s : S)
      → e.cloud.timer.now s ≤ e.cloud.timer.now (e.cloud.send endpoint key body s).1

-- The serial numbers that a response to a batch accepts: the whole batch if it names none, else those
-- that it names as accepted, whether they were in the batch or not.
pub data Accepts (batch : List Text) (response : SqlServerUploadResponse) : List Text → Type 0 where
  whole :
      response.accepted_serial_nos ≡ []
      → response.failed_serial_nos ≡ []
      → Accepts batch response batch
  named :
      (response.accepted_serial_nos ≢ []) ⊎ (response.failed_serial_nos ≢ [])
      → Accepts batch response response.accepted_serial_nos

module _ {Body S : Type 0} (e : SqlServerSyncEngine Body S) where
  -- The rows with those of the serial numbers marked, where marking is enabled.
  abbrev pub markings : List Text → List WeightRow → List WeightRow
  markings ids rows = if e.source.cfg.mark_uploaded then map (marked e.equal ids) rows else rows

  -- The batch that the query took from the server.
  pub record Taken (db : Database) (records : List SqlServerWeightRecord) : Type 0 where
    pub selected : List WeightRow
    pub selects : Selected e.sync.batch_size db.rows selected
    pub converted : Records e.driver e.tsql selected records
    pub some_ : records ≢ []

  -- The endpoint's last answer to the objects of the records, from which the cycle goes on in the
  -- state `final`.
  abbrev pub Answered :
      List SqlServerWeightRecord → Result UploadError SqlServerUploadResponse → S → Type 0
  Answered records answer final =
      (s : S) × (upload_batch e (map (λ r. r.data_) records) s ≡ (answer, final))

  -- How a cycle can end: its result and the rows that it leaves.
  pub data Cycle (db : Database) : Result Error SyncOutcome → List WeightRow → Type 0 where
    broken : (x : Error) → HasFault db → Cycle db (err x) db.rows
    refused :
        (x : Error) (selected : List WeightRow)
        → Selected e.sync.batch_size db.rows selected
        → Refused e.driver e.tsql selected x
        → Cycle db (err x) db.rows
    nothing_selected : Selected e.sync.batch_size db.rows [] → Cycle db (ok no_data) db.rows
    upload_failed :
        (records : List SqlServerWeightRecord) (u : UploadError) (s : S)
        → Taken db records
        → Answered records (err u) s
        → Cycle db (err (context gave_up_text (cause u))) db.rows
    uploaded :
        (records : List SqlServerWeightRecord) (response : SqlServerUploadResponse)
        (ids : List Text) (s : S)
        → Taken db records
        → Answered records (ok response) s
        → Accepts (serial_nos_of records) response ids
        → Cycle db
            (ok (record {
              fetched = length (serial_nos_of records);
              synced = length ids;
              failed = length response.failed_serial_nos;
              marked_uploaded = some e.source.cfg.mark_uploaded;
              no_data = false;
            }))
            (markings ids db.rows)
    -- A step failed after the rows of a first part of the accepted serial numbers were marked.
    marking_stopped :
        (records : List SqlServerWeightRecord) (response : SqlServerUploadResponse)
        (done left : List Text) (s : S) (x : Error)
        → Taken db records
        → Answered records (ok response) s
        → Accepts (serial_nos_of records) response (done ++ left)
        → HasFault db
        → Cycle db (err x) (markings done db.rows)
