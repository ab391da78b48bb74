-- ===== src/Sync/Engine.antt =====
-- sync/engine.rs: from the local cache to the cloud.
pub mod Cycle
pub mod Fitting
pub mod Refines
pub mod Safety
pub mod Upload
use weighing_data_sync.Prelude.{
  ℕ, ◌≡◌, Bool, true, false, ◌&&◌, ◌==◌, if◌then◌else◌, Option, none, some, List, [], ◌∷◌, map,
  Text, codes, is_empty, length,
}
use weighing_data_sync.Anyhow.{
  Error, context, to_string, Result, ok, err, map_context, ◌>>=◌ as bind,
}
use weighing_data_sync.Config.{ApiConfig, SyncConfig}
use weighing_data_sync.Config.Sections.{retry_initial_delay, retry_max_delay, retry_max_elapsed}
use weighing_data_sync.Db.{
  Db, Exec, continue, ◌>>=◌, ◌>>◌, lift, fetch_pending, mark_synced, mark_failed,
}
use weighing_data_sync.Db.Models.{WeighingRecord, Mass, weight_lb}
use weighing_data_sync.Db.Models.Codec.{Codec}
use weighing_data_sync.Db.Models.Float.{F64}
use weighing_data_sync.Db.Models.WeightUnit
use weighing_data_sync.Db.Insert.{ids_of}
use weighing_data_sync.Db.Sqlite.{Sqlite}
use weighing_data_sync.Sync.{SyncOutcome, no_data}
use weighing_data_sync.Sync.Error.{UploadError, transient, permanent, from_status, is_success}
use weighing_data_sync.Sync.Retry.{Report, retry_transient}
use weighing_data_sync.Sync.Cloud.{Cloud, HttpResponse}

pub record UploadRecord : Type 0 where
  pub id : ℕ
  pub ticket_no : Text
  pub scale_no : Text
  pub plate_no : Option Text
  pub weight_kg : F64
  pub weight_lb : F64
  pub original_unit : Text
  pub measured_at : ℕ

pub record BatchUploadRequest : Type 0 where
  pub source : Text
  pub uploaded_at : ℕ
  pub records : List UploadRecord

pub record BatchUploadResponse : Type 0 where
  pub accepted_ids : List ℕ
  pub failed_ids : List ℕ

-- `UploadRecord::from`.
unfoldable pub upload_record : Mass → WeighingRecord → UploadRecord
unfolding weight_lb
upload_record m r = record {
  id = r.id;
  ticket_no = r.ticket_no;
  scale_no = r.scale_no;
  plate_no = r.plate_no;
  weight_kg = r.weight_kg;
  weight_lb = weight_lb m r;
  original_unit = WeightUnit.as_str r.original_unit;
  measured_at = r.measured_at;
}

-- What the engine is built from. `build` is `build_payload_request`, `decode` reads the JSON of a
-- response.
pub record SyncEngine (Body S : Type 0) : Type 0 where
  pub codec : Codec
  pub sqlite : Sqlite
  pub mass : Mass
  pub cloud : Cloud Body S
  pub build : BatchUploadRequest → Result Error Body
  pub decode : Text → Result Error BatchUploadResponse
  pub api : ApiConfig
  pub sync : SyncConfig

-- The cache and what is outside.
pub record World (S : Type 0) : Type 0 where
  pub db : Db
  pub outside : S

-- `mark_…` is called for a list of ids that is not empty.
abbrev pub unless_empty : List ℕ → Exec (Unit {0}) → Exec (Unit {0})
unless_empty [] m db = (ok tt, db)
unless_empty (i ∷ ids) m db = m db

module _ {Body S : Type 0} (e : SyncEngine Body S) where
  unfoldable pub payload : List WeighingRecord → S → BatchUploadRequest
  payload records s = record {
    source = codes "weighing-data-sync";
    uploaded_at = e.cloud.utc 0 s;
    records = map (upload_record e.mass) records;
  }

  -- `response.json()`: the body is read and decoded.
  unfoldable pub read_json : HttpResponse → Result UploadError BatchUploadResponse
  read_json response =
      map_context permanent (codes "failed to decode upload response") (bind response.body e.decode)

  -- `response.text().await.unwrap_or_default()`.
  abbrev pub text_or_default : Result Error Text → Text
  text_or_default (ok text) = text
  text_or_default (err x) = []

  unfoldable pub read_response :
      List WeighingRecord → HttpResponse → Result UploadError BatchUploadResponse
  unfolding read_json
  read_response records response =
      if response.status == 204
      then ok (record { accepted_ids = ids_of records; failed_ids = [] })
      else if is_success response.status
      then read_json response
      else err (from_status e.cloud.status_text response.status (text_or_default response.body))

  unfoldable pub sent :
      List WeighingRecord
      → Result Error HttpResponse × S
      → Result UploadError BatchUploadResponse × S
  unfolding read_response
  sent records (err x, s) = (err (transient (context (codes "failed to send upload request") x)), s)
  sent records (ok response, s) = (read_response records response, s)

  unfoldable pub upload_batch : List WeighingRecord → S → Result UploadError BatchUploadResponse × S
  unfolding sent payload
  upload_batch records s = elim (e.build (payload records s)) [
    | err x ↦ (err (permanent x), s)
    | ok body ↦ sent records (e.cloud.send e.api.endpoint e.api.api_key body s)
  ]

  -- An empty answer accepts the whole batch.
  unfoldable pub accepted : List WeighingRecord → BatchUploadResponse → List ℕ
  accepted records response =
      if is_empty response.accepted_ids && is_empty response.failed_ids
      then ids_of records
      else response.accepted_ids

  abbrev pub rejected_text : Text
  rejected_text = codes "remote endpoint rejected record"

  abbrev pub gave_up_text : Text
  gave_up_text = codes "batch upload failed (permanent error or retry budget exhausted)"

  -- What follows the upload; `s` is the state when it ended.
  unfoldable pub conclude :
      List WeighingRecord → Result Error BatchUploadResponse → S → Exec SyncOutcome
  unfolding accepted
  conclude records (err error) s = do
    mark_failed e.codec (e.cloud.utc 0 s) (ids_of records) (to_string error)
    lift (err (context gave_up_text error))
  conclude records (ok response) s = do
    let accepted_ids = accepted records response
    unless_empty accepted_ids (mark_synced e.codec (e.cloud.utc 0 s) accepted_ids)
    unless_empty response.failed_ids
        (mark_failed e.codec (e.cloud.utc 1 s) response.failed_ids rejected_text)
    lift (
        ok (record {
          fetched = length records;
          synced = length accepted_ids;
          failed = length response.failed_ids;
          marked_uploaded = none;
          no_data = false;
        }))

  -- A call of the database from a world.
  abbrev pub in_world : Result Error SyncOutcome × Db → S → Result Error SyncOutcome × World S
  in_world (r, db) s = (r, record { db = db; outside = s })

  unfoldable pub upload_with_retry : List WeighingRecord → S → Option (Report BatchUploadResponse S)
  unfolding retry_initial_delay retry_max_delay retry_max_elapsed
  upload_with_retry records s =
      retry_transient e.cloud.timer (upload_batch records) (retry_initial_delay e.sync)
        (retry_max_delay e.sync) (retry_max_elapsed e.sync) s

  -- What follows the query for pending records.
  unfoldable pub process :
      Result Error (List WeighingRecord) → World S → Option (Result Error SyncOutcome × World S)
  unfolding upload_with_retry conclude
  process (err x) w = some (err x, w)
  process (ok []) w = some (ok no_data, w)
  process (ok (r ∷ rs)) w = elim (upload_with_retry (r ∷ rs) w.outside) [
    | none ↦ none
    | some report ↦ some (in_world (conclude (r ∷ rs) report.result report.final w.db) report.final)
  ]

  -- `none` means that the fuel of the retry loop ran out.
  pub sync_once : World S → Option (Result Error SyncOutcome × World S)
  sync_once w =
      let (fetched, db) = fetch_pending e.codec e.sqlite e.sync.batch_size w.db in
      process fetched (record w { db = db })
