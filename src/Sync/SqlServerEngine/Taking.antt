-- ===== src/Sync/SqlServerEngine/Taking.antt =====
-- Endpoints that accept whole batches.
use weighing_data_sync.Prelude.{◌≡◌, ◌≢◌, refl, ap, inl, inr, true, List, [], map, Text}
use weighing_data_sync.Anyhow.{Error, Result, ok, err}
use weighing_data_sync.Json.{Fields}
use weighing_data_sync.Source.SqlServer.{WeightRow}
use weighing_data_sync.Source.SqlServer.Row.{SqlServerWeightRecord}
use weighing_data_sync.Source.SqlServer.Fetch.Selected.{Records}
use weighing_data_sync.Sync.Cloud.{HttpResponse}
use weighing_data_sync.Sync.SqlServerEngine.{
  SqlServerSyncEngine, SqlServerUploadRequest, SqlServerUploadResponse, default_response, payload,
  read_response, sent, upload_batch, serial_nos_of,
}
use weighing_data_sync.Sync.SqlServerEngine.Cycle.{Accepts, whole, named}

-- Marking is enabled, requests can be built, the endpoint answers each with 204, and the server takes
-- a text for equal to itself.
pub record IsUp {Body S : Type 0} (e : SqlServerSyncEngine Body S) : Type 0 where
  pub enabled : e.source.cfg.mark_uploaded ≡ true
  pub builds : (r : SqlServerUploadRequest) → (body : Body) × (e.build r ≡ ok body)
  pub answers :
      (body : Body) (s : S)
      → (response : HttpResponse) × ((e.cloud.send e.api.endpoint e.api.api_key body s).0
          ≡ ok response)
        × (response.status ≡ 204)
  pub reflexive : (t : Text) → e.equal t t ≡ true

-- Marking is enabled, the server takes a text for equal to itself, and the endpoint accepts the whole
-- of each batch that the query can give.
pub record TakesAll {Body S : Type 0} (e : SqlServerSyncEngine Body S) : Type 0 where
  pub enabled : e.source.cfg.mark_uploaded ≡ true
  pub reflexive : (t : Text) → e.equal t t ≡ true
  pub takes :
      (rows : List WeightRow) (records : List SqlServerWeightRecord)
      → Records e.driver e.tsql rows records
      → records ≢ []
      → (s : S)
      → (response : SqlServerUploadResponse) × ((upload_batch e (map (λ r. r.data_) records) s).0
          ≡ ok response)
        × ((ids : List Text)
            → Accepts (serial_nos_of records) response ids
            → ids ≡ serial_nos_of records)

module _ {Body S : Type 0} (e : SqlServerSyncEngine Body S) (up : IsUp e) where
  -- An upload succeeds, and its answer names no serial number.
  no_content-ok :
      (response : HttpResponse)
      → response.status ≡ 204
      → read_response e response ≡ ok default_response
  unfolding read_response
  no_content-ok response h = rw (read_response, h)

  sent_ok :
      (response : HttpResponse) (out : Result Error HttpResponse × S)
      → out.0 ≡ ok response
      → response.status ≡ 204
      → (sent e out).0 ≡ ok default_response
  unfolding sent
  sent_ok response (err x, s) answer no_content = absurd cc
  sent_ok response (ok answered, s) answer no_content = no_content-ok answered cc

  upload_batch-answered :
      (batch : List Fields) (s : S) → (upload_batch e batch s).0 ≡ ok default_response
  unfolding upload_batch
  upload_batch-answered batch s =
      let (body, built) = up.builds (payload e batch s) in
      let (response, answer, no_content) = up.answers body s in
      rw (upload_batch, built) (sent_ok response _ answer no_content)

  batch_accepted :
      (batch ids : List Text) (response : SqlServerUploadResponse)
      → response ≡ default_response
      → Accepts batch response ids
      → ids ≡ batch
  batch_accepted batch ids response same (whole a f) = refl
  batch_accepted batch ids response same (named (inl a)) =
      absurd (a (ap (λ r. r.accepted_serial_nos) same))
  batch_accepted batch ids response same (named (inr f)) =
      absurd (f (ap (λ r. r.failed_serial_nos) same))

  pub IsUp-TakesAll : TakesAll e
  IsUp-TakesAll = record {
    enabled = up.enabled;
    reflexive = up.reflexive;
    takes = λ rows records converted some_ s. (
      default_response,
      upload_batch-answered (map (λ r. r.data_) records) s,
      λ ids. batch_accepted (serial_nos_of records) ids default_response refl,
    );
  }
