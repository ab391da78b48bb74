-- ===== src/Sync/Payload.antt =====
-- `build_payload_request` of sync/engine.rs and sync/sqlserver_engine.rs: the request for a batch, whose
-- body a build with the feature `compression` sends gzipped.
use weighing_data_sync.Prelude.{
  ◌≡◌, sym, ◌∙◌, inl, inr, Bool, true, false, List, [], ◌∷◌, Text, codes,
}
use weighing_data_sync.Anyhow.{Error, context, Result, ok, err, with_context, ◌>>=◌, Result-cases}

-- What a request is built with. `to_vec` is serde_json's; `write_all` writes to a new gzip encoder and
-- gives what it holds, which `finish` completes; `json` and `with_body` set the body of the request.
pub record Requests (Payload Body : Type 0) : Type 0 where
  pub to_vec : Payload → Result Error Text
  pub write_all : Text → Result Error Text
  pub finish : Text → Result Error Text
  pub json : Payload → Body
  pub with_body : (headers : List (Text × Text)) → Text → Body

-- The contexts of its errors, in which the two functions differ.
pub record Contexts : Type 0 where
  pub serialize : Text
  pub gzip : Text
  pub finalize : Text

abbrev pub gzip_headers : List (Text × Text)
gzip_headers =
    (codes "content-encoding", codes "gzip") ∷ (codes "content-type", codes "application/json") ∷ []

module _ {Payload Body : Type 0} (contexts : Contexts) (requests : Requests Payload Body) where
  abbrev pub compressed : Payload → Result Error Body
  compressed payload = do
    json ← with_context contexts.serialize (requests.to_vec payload)
    encoder ← with_context contexts.gzip (requests.write_all json)
    zipped ← with_context contexts.finalize (requests.finish encoder)
    ok (requests.with_body gzip_headers zipped)

  -- `compression` is the feature of the build.
  unfoldable pub build_payload_request : (compression : Bool) → Payload → Result Error Body
  build_payload_request false payload = ok (requests.json payload)
  build_payload_request true payload = compressed payload

module _ {Payload Body : Type 0} (requests : Requests Payload Body) where
  -- The function of the local engine.
  unfoldable pub build_upload_request : (compression : Bool) → Payload → Result Error Body
  unfolding build_payload_request
  build_upload_request =
      build_payload_request
        (record {
          serialize = codes "failed to serialize upload payload";
          gzip = codes "failed to gzip upload payload";
          finalize = codes "failed to finalize gzip payload";
        })
        requests

  -- The function of the SQL Server engine.
  unfoldable pub build_sql_server_request : (compression : Bool) → Payload → Result Error Body
  unfolding build_payload_request
  build_sql_server_request =
      build_payload_request
        (record {
          serialize = codes "failed to serialize SQL Server upload payload";
          gzip = codes "failed to gzip SQL Server upload payload";
          finalize = codes "failed to finalize SQL Server gzip payload";
        })
        requests

  -- What is relied on: `carried` is the text in the body of a request once its content encoding is
  -- undone, and gzip loses nothing.
  pub record IsRequests : Type 0 where
    pub carried : Body → Result Error Text
    pub carries_json :
        (payload : Payload) → carried (requests.json payload) ≡ requests.to_vec payload
    pub unzips :
        (text encoder zipped : Text)
        → requests.write_all text ≡ ok encoder
        → requests.finish encoder ≡ ok zipped
        → carried (requests.with_body gzip_headers zipped) ≡ ok text

module _ {Payload Body : Type 0} (contexts : Contexts) (requests : Requests Payload Body)
    (lawful : IsRequests requests) (payload : Payload) where
  -- What building a request comes to.
  pub data Builds : (compression : Bool) → Result Error Body → Type 0 where
    built :
        {compression : Bool} {body : Body}
        → lawful.carried body ≡ requests.to_vec payload
        → Builds compression (ok body)
    unserialized :
        {e : Error}
        → requests.to_vec payload ≡ err e
        → Builds true (err (context contexts.serialize e))
    not_written :
        {e : Error} {text : Text}
        → requests.to_vec payload ≡ ok text
        → requests.write_all text ≡ err e
        → Builds true (err (context contexts.gzip e))
    not_finished :
        {e : Error} {text encoder : Text}
        → requests.write_all text ≡ ok encoder
        → requests.finish encoder ≡ err e
        → Builds true (err (context contexts.finalize e))

  -- Compression does not change what is sent: in both builds a request that is built carries the JSON
  -- of the payload, gzipped or not. Without compression the request is always built; with it, the
  -- payload that cannot be serialized and a failing encoder are errors.
  pub build_payload_request-Builds :
      (compression : Bool)
      → Builds compression (build_payload_request contexts requests compression payload)
  unfolding build_payload_request
  build_payload_request-Builds false = built (lawful.carries_json payload)
  build_payload_request-Builds true = elim (Result-cases (requests.to_vec payload)) [
    | inr (e, fails) ↦ rw (build_payload_request, fails) (unserialized fails)
    | inl (text, serialized) ↦ elim (Result-cases (requests.write_all text)) [
      | inr (e, fails) ↦
          rw (build_payload_request, serialized, fails) (not_written serialized fails)
      | inl (encoder, written) ↦ elim (Result-cases (requests.finish encoder)) [
        | inr (e, fails) ↦
            rw (build_payload_request, serialized, written, fails) (not_finished written fails)
        | inl (zipped, finished) ↦
            rw (build_payload_request, serialized, written, finished)
              (built (lawful.unzips text encoder zipped written finished ∙ sym serialized))
      ]
    ]
  ]
