-- ===== src/Sync/SqlServerEngine.antt =====
-- sync/sqlserver_engine.rs: from SQL Server to the cloud.
pub mod Upload
pub mod Cycle
pub mod Concluding
pub mod Refines
pub mod Safety
pub mod Waiting
pub mod Taking
pub mod Progress
pub mod Drain
pub mod Serials
pub mod Received
use weighing_data_sync.Prelude.{
  ℕ, Bool, true, false, ◌&&◌, ◌==◌, if◌then◌else◌, Option, none, some, List, [], ◌∷◌, map, Text,
  codes, is_empty, length,
}
use weighing_data_sync.Anyhow.{Error, context, Result, ok, err, map_context}
use weighing_data_sync.Text.{trim}
use weighing_data_sync.Json.{Fields}
use weighing_data_sync.Config.{ApiConfig, SyncConfig}
use weighing_data_sync.Config.Sections.{retry_initial_delay, retry_max_delay, retry_max_elapsed}
use weighing_data_sync.Source.SqlServer.{SqlServerSource, Database, mark_uploaded}
use weighing_data_sync.Source.SqlServer.Row.{Driver, SqlServerWeightRecord}
use weighing_data_sync.Source.SqlServer.Fetch.{Tsql, fetch_pending}
use weighing_data_sync.Sync.{SyncOutcome, no_data}
use weighing_data_sync.Sync.Error.{UploadError, transient, permanent, from_status, is_success}
use weighing_data_sync.Sync.Retry.{Report, retry_transient}
use weighing_data_sync.Sync.Cloud.{Cloud, HttpResponse}

pub record SqlServerUploadRequest : Type 0 where
  pub source : Text
  pub database : Text
  pub table : Text
  pub uploaded_at : ℕ
  pub records : List Fields

pub record SqlServerUploadResponse : Type 0 where
  pub accepted_serial_nos : List Text
  pub failed_serial_nos : List Text

-- `SqlServerUploadResponse::default()`.
abbrev pub default_response : SqlServerUploadResponse
default_response = record { accepted_serial_nos = []; failed_serial_nos = [] }

-- What the engine is built from. `equal` is the collation, `address` and `show` go into messages,
-- `build` is `build_payload_request`, and `decode` reads the JSON of a response.
pub record SqlServerSyncEngine (Body S : Type 0) : Type 0 where
  pub driver : Driver
  pub tsql : Tsql
  pub equal : Text → Text → Bool
  pub address : Text
  pub show : ℕ → Text
  pub cloud : Cloud Body S
  pub build : SqlServerUploadRequest → Result Error Body
  pub decode : Text → Result Error SqlServerUploadResponse
  pub api : ApiConfig
  pub sync : SyncConfig
  pub source : SqlServerSource

-- The server and what is outside.
pub record World (S : Type 0) : Type 0 where
  pub db : Database
  pub outside : S

abbrev pub serial_nos_of : List SqlServerWeightRecord → List Text
serial_nos_of records = map (λ r. r.serial_no) records

abbrev pub gave_up_text : Text
gave_up_text = codes "SQL Server upload failed (permanent error or retry budget exhausted)"

module _ {Body S : Type 0} (e : SqlServerSyncEngine Body S) where
  unfoldable pub payload : List Fields → S → SqlServerUploadRequest
  payload records s = record {
    source = codes "sqlserver-yunfu-tbl_weightInfo";
    database = e.source.cfg.database;
    table = e.source.cfg.table;
    uploaded_at = e.cloud.utc 0 s;
    records = records;
  }

  -- `response.text().await.unwrap_or_default()`.
  abbrev pub text_or_default : Result Error Text → Text
  text_or_default (ok text) = text
  text_or_default (err x) = []

  -- The body of a 2xx response other than 204.
  unfoldable pub read_body : Result Error Text → Result UploadError SqlServerUploadResponse
  read_body (err x) =
      err (transient (context (codes "failed to read SQL Server upload response body") x))
  read_body (ok body) =
      if is_empty (trim body)
      then ok default_response
      else map_context permanent (codes "failed to decode SQL Server upload response")
          (e.decode body)

  unfoldable pub read_response : HttpResponse → Result UploadError SqlServerUploadResponse
  unfolding read_body
  read_response response =
      if response.status == 204
      then ok default_response
      else if is_success response.status
      then read_body response.body
      else err (from_status e.cloud.status_text response.status (text_or_default response.body))

  unfoldable pub sent :
      Result Error HttpResponse × S → Result UploadError SqlServerUploadResponse × S
  unfolding read_response
  sent (err x, s) =
      (err (transient (context (codes "failed to send SQL Server upload request") x)), s)
  sent (ok response, s) = (read_response response, s)

  unfoldable pub upload_batch : List Fields → S → Result UploadError SqlServerUploadResponse × S
  unfolding sent payload
  upload_batch records s = elim (e.build (payload records s)) [
    | err x ↦ (err (permanent x), s)
    | ok body ↦ sent (e.cloud.send e.api.endpoint e.api.api_key body s)
  ]

  -- An empty answer accepts the whole batch.
  unfoldable pub accepted : List Text → SqlServerUploadResponse → List Text
  accepted serial_nos response =
      if is_empty response.accepted_serial_nos && is_empty response.failed_serial_nos
      then serial_nos
      else response.accepted_serial_nos

  abbrev pub marking : List Text → Database → Result Error (Unit {0}) × Database
  marking serial_nos db = mark_uploaded e.equal e.show e.address e.source serial_nos db

  -- What is reported once the rows are marked.
  abbrev pub reported :
      List Text
      → List Text
      → SqlServerUploadResponse
      → Result Error (Unit {0}) × Database
      → Result Error SyncOutcome × Database
  reported serial_nos accepted_serial_nos response (err x, db) = (err x, db)
  reported serial_nos accepted_serial_nos response (ok _, db) = (
    ok (record {
      fetched = length serial_nos;
      synced = length accepted_serial_nos;
      failed = length response.failed_serial_nos;
      marked_uploaded = some e.source.cfg.mark_uploaded;
      no_data = false;
    }),
    db,
  )

  -- What follows the upload.
  unfoldable pub conclude :
      List Text
      → Result Error SqlServerUploadResponse
      → Database
      → Result Error SyncOutcome × Database
  unfolding accepted
  conclude serial_nos (err error) db = (err (context gave_up_text error), db)
  conclude serial_nos (ok response) db =
      let accepted_serial_nos = accepted serial_nos response in
      reported serial_nos accepted_serial_nos response
        (if is_empty accepted_serial_nos then (ok tt, db) else marking accepted_serial_nos db)

  unfoldable pub upload_with_retry : List Fields → S → Option (Report SqlServerUploadResponse S)
  unfolding retry_initial_delay retry_max_delay retry_max_elapsed
  upload_with_retry records s =
      retry_transient e.cloud.timer (upload_batch records) (retry_initial_delay e.sync)
        (retry_max_delay e.sync) (retry_max_elapsed e.sync) s

  abbrev pub in_world : Result Error SyncOutcome × Database → S → Result Error SyncOutcome × World S
  in_world (r, db) s = (r, record { db = db; outside = s })

  -- What follows the query.
  unfoldable pub process :
      Result Error (List SqlServerWeightRecord)
      → World S
      → Option (Result Error SyncOutcome × World S)
  unfolding upload_with_retry conclude
  process (err x) w = some (err x, w)
  process (ok []) w = some (ok no_data, w)
  process (ok (r ∷ rs)) w = elim (upload_with_retry (map (λ x. x.data_) (r ∷ rs)) w.outside) [
    | none ↦ none
    | some report ↦
        some (in_world (conclude (serial_nos_of (r ∷ rs)) report.result w.db) report.final)
  ]

  -- `none` means that the fuel of the retry loop ran out.
  unfoldable pub sync_once : World S → Option (Result Error SyncOutcome × World S)
  unfolding fetch_pending process
  sync_once w =
      let (fetched, db) = fetch_pending e.driver e.tsql e.address e.sync.batch_size w.db in
      process fetched (record w { db = db })
