-- ===== src/Sync/Engine/Cycle.antt =====
-- The specification of a cycle of the local engine, on the records that the cache holds.
use weighing_data_sync.Prelude.{
  ℕ, ◌^◌, ◌<◌, ◌≤◌, ◌≡◌, ◌≢◌, ◌⊎◌, false, Option, none, List, [], map, Text, All, length, keep,
}
use weighing_data_sync.Anyhow.{Error, context, to_string, Result, ok, err}
use weighing_data_sync.Db.{Db, is_due}
use weighing_data_sync.Db.Models.{WeighingRecord, to_model}
use weighing_data_sync.Db.Models.Codec.{IsCodec, rfc3339_end}
use weighing_data_sync.Db.Insert.{ids_of}
use weighing_data_sync.Db.Sqlite.{IsSqlite}
use weighing_data_sync.Db.Store.{update_ids, synced_record, failed_record, HasFault}
use weighing_data_sync.Db.Fetch.{Batch}
use weighing_data_sync.Sync.{SyncOutcome, no_data}
use weighing_data_sync.Sync.Error.{UploadError, cause}
use weighing_data_sync.Sync.Retry.Laws.{IsTimer}
use weighing_data_sync.Sync.Engine.{
  SyncEngine, BatchUploadResponse, upload_batch, rejected_text, gave_up_text,
}

-- What the engine relies on of the libraries and of the outside: the codec and the query behave as
-- documented, a decoded response holds 128-bit ids, the clock is in the years 0 to 9999 and does not
-- run backwards while a request is under way.
pub record IsEngine {Body S : Type 0} (e : SyncEngine Body S) : Type 0 where
  pub codec : IsCodec e.codec
  pub sqlite : IsSqlite e.sqlite
  pub timer : IsTimer e.cloud.timer
  pub decoded :
      (text : Text) (r : BatchUploadResponse)
      → e.decode text ≡ ok r
      → All (λ i. i < 2 ^ 128) r.accepted_ids × All (λ i. i < 2 ^ 128) r.failed_ids
  pub utc_fits : (k : ℕ) (s : S) → e.cloud.utc k s < rfc3339_end
  pub send_later :
      (endpoint : Text) (key : Option Text) (body : Body) (s : S)
      → e.cloud.timer.now s ≤ e.cloud.timer.now (e.cloud.send endpoint key body s).1

-- The ids that a response to a batch accepts: the whole batch if it names no id, else those that it
-- names as accepted.
pub data Accepts (batch : List WeighingRecord) (response : BatchUploadResponse)
    : List ℕ → Type 0 where
  whole :
      response.accepted_ids ≡ [] → response.failed_ids ≡ [] → Accepts batch response (ids_of batch)
  named :
      (response.accepted_ids ≢ []) ⊎ (response.failed_ids ≢ [])
      → Accepts batch response response.accepted_ids

module _ {Body S : Type 0} (e : SyncEngine Body S) where
  -- The records after the accepted ones were marked.
  abbrev pub after_synced : S → List ℕ → List WeighingRecord → List WeighingRecord
  after_synced s ids rs = update_ids ids (synced_record (e.cloud.utc 0 s)) rs

  -- The records after the failed ones were marked too.
  abbrev pub after_response :
      S → List ℕ → BatchUploadResponse → List WeighingRecord → List WeighingRecord
  after_response s ids response rs =
      update_ids response.failed_ids (failed_record (e.cloud.utc 1 s) (rejected_text e))
        (after_synced s ids rs)

  abbrev pub after_failure :
      S → List WeighingRecord → Error → List WeighingRecord → List WeighingRecord
  after_failure s batch x rs =
      update_ids (ids_of batch) (failed_record (e.cloud.utc 0 s) (to_string x)) rs

  -- The endpoint's last answer to a batch, from which the cycle goes on in the state `final`.
  abbrev pub Answered : List WeighingRecord → Result UploadError BatchUploadResponse → S → Type 0
  Answered batch answer final = (s : S) × (upload_batch e batch s ≡ (answer, final))

  -- How a cycle on the database `db`, which holds the records `rs`, can end: its result and the
  -- records that it leaves.
  pub data Cycle (db : Db) (rs : List WeighingRecord)
      : Result Error SyncOutcome → List WeighingRecord → Type 0 where
    -- A statement failed before anything was marked.
    db_failed : (x : Error) → HasFault db → Cycle db rs (err x) rs
    nothing_due : keep is_due (map (to_model e.codec) rs) ≡ [] → Cycle db rs (ok no_data) rs
    -- The batch size is zero.
    no_room : e.sync.batch_size ≡ 0 → Cycle db rs (ok no_data) rs
    upload_failed :
        (batch : List WeighingRecord) (u : UploadError) (s : S)
        → Batch e.codec rs e.sync.batch_size batch
        → Answered batch (err u) s
        → Cycle db rs
            (err (context (gave_up_text e) (cause u)))
            (after_failure s batch (cause u) rs)
    uploaded :
        (batch : List WeighingRecord) (response : BatchUploadResponse) (ids : List ℕ) (s : S)
        → Accepts batch response ids
        → Batch e.codec rs e.sync.batch_size batch
        → Answered batch (ok response) s
        → Cycle db rs
            (ok (record {
              fetched = length batch;
              synced = length ids;
              failed = length response.failed_ids;
              marked_uploaded = none;
              no_data = false;
            }))
            (after_response s ids response rs)
    -- The accepted records were marked, and the statement that marks the failed ones failed.
    failed_unmarked :
        (batch : List WeighingRecord) (response : BatchUploadResponse) (ids : List ℕ) (s : S)
        (x : Error)
        → Accepts batch response ids
        → HasFault db
        → Batch e.codec rs e.sync.batch_size batch
        → Answered batch (ok response) s
        → Cycle db rs (err x) (after_synced s ids rs)
