-- ===== src/Sync/SqlServerEngine/Received.antt =====
-- The SQL Server engine against the route of server.rs that receives.
use weighing_data_sync.Prelude.{ℕ, ◌≡◌, true, false, List, [], map, is_empty, Text}
use weighing_data_sync.Anyhow.{Error, Result, ok}
use weighing_data_sync.Text.{trim}
use weighing_data_sync.Json.{Value, object}
use weighing_data_sync.Db.Models.Codec.{Codec}
use weighing_data_sync.Server as Server
use weighing_data_sync.Server.{AppState, refusal, records_of, put_weighing_data, put}
use weighing_data_sync.Source.SqlServer.Row.{SqlServerWeightRecord}
use weighing_data_sync.Sync.SqlServerEngine.{
  SqlServerSyncEngine, SqlServerUploadRequest, SqlServerUploadResponse, serial_nos_of,
}
use weighing_data_sync.Server.Bearer.{bearer_auth, IsKey}
use weighing_data_sync.Sync.SqlServerEngine.Serials.{SerialColumn}

module _ {Body S : Type 0} (e : SqlServerSyncEngine Body S) where
  -- What the client reads of an answer.
  abbrev pub Shows : Text → Server.Body → Type 0
  Shows text (refusal request_id error) = Unit
  Shows text (put p) =
      (is_empty (trim text) ≡ false)
      × (e.decode text
          ≡ ok (record {
            accepted_serial_nos = p.accepted_serial_nos;
            failed_serial_nos = p.failed_serial_nos;
          }))

  module _ (c : Codec) (to_json : Value → Result Error Text) where
    -- The endpoint is the receiving route, which has the key of the engine: `value_of` is what it reads
    -- of a request, `server` its state, and `text` its answer as it comes back. Marking is enabled, and
    -- the server takes a text for equal to itself.
    pub record ReceivedBy : Type 0 where
      pub enabled : e.source.cfg.mark_uploaded ≡ true
      pub reflexive : (t : Text) → e.equal t t ≡ true
      pub serials : SerialColumn e
      pub key : IsKey e.api.api_key
      pub value_of : Body → Value
      pub builds :
          (r : SqlServerUploadRequest)
          → (body : Body) × (e.build r ≡ ok body)
            × (records_of (value_of body) ≡ map object r.records)
      pub server : S → AppState
      pub same_key : (s : S) → (server s).api_key ≡ e.api.api_key
      pub answers :
          (body : Body) (s : S)
          → (inserted_at received_at request_id : ℕ) × (text : Text) × ((e.cloud.send e.api.endpoint
                e.api.api_key body s).0
              ≡ ok (record {
                status =
                    (put_weighing_data c to_json inserted_at received_at request_id
                      (server s)
                      (bearer_auth e.api.api_key)
                      (value_of body)).0.status;
                body = ok text;
              }))
            × Shows text
                (put_weighing_data c to_json inserted_at received_at request_id
                  (server s)
                  (bearer_auth e.api.api_key)
                  (value_of body)).0.body

    module _ (received : ReceivedBy) where
      -- The answer to a batch that the query gave, which names the whole batch.
      batch_response : List SqlServerWeightRecord → SqlServerUploadResponse
      batch_response records = record {
        accepted_serial_nos = serial_nos_of records;
        failed_serial_nos = [];
      }
