-- ===== src/Sync/SqlServerEngine/Upload.antt =====
-- What one upload of a batch of rows comes to.
use weighing_data_sync.Prelude.{
  ◌≡◌, ◌≢◌, refl, inl, inr, true, false, Bool-cases, is_empty-cases, ◌==◌, ==_iff, List, [], Text,
  codes, arith,
}
use weighing_data_sync.Anyhow.{Error, context, Result, ok, err, Result-cases}
use weighing_data_sync.Text.{trim}
use weighing_data_sync.Json.{Fields}
use weighing_data_sync.Sync.Error.{UploadError, transient, permanent, from_status, is_success}
use weighing_data_sync.Sync.Cloud.{HttpResponse}
use weighing_data_sync.Sync.SqlServerEngine.{
  SqlServerSyncEngine, SqlServerUploadResponse, default_response, payload, read_body, read_response,
  sent, upload_batch, text_or_default,
}

module _ {Body S : Type 0} (e : SqlServerSyncEngine Body S) where
  -- What the body of a successful response comes to.
  pub data Body_ : Result Error Text → Result UploadError SqlServerUploadResponse → Type 0 where
    unread :
        {x : Error}
        → Body_
            (err x)
            (err (transient (context (codes "failed to read SQL Server upload response body") x)))
    blank : {text : Text} → trim text ≡ [] → Body_ (ok text) (ok default_response)
    decoded :
        {text : Text} {r : SqlServerUploadResponse}
        → trim text ≢ []
        → e.decode text ≡ ok r
        → Body_ (ok text) (ok r)
    undecoded :
        {text : Text} {x : Error}
        → trim text ≢ []
        → e.decode text ≡ err x
        → Body_
            (ok text)
            (err (permanent (context (codes "failed to decode SQL Server upload response") x)))

  -- What a response comes to.
  pub data Reads (response : HttpResponse)
      : Result UploadError SqlServerUploadResponse → Type 0 where
    no_content : response.status ≡ 204 → Reads response (ok default_response)
    answered :
        {r : Result UploadError SqlServerUploadResponse}
        → response.status ≢ 204
        → is_success response.status ≡ true
        → Body_ response.body r
        → Reads response r
    refused :
        is_success response.status ≡ false
        → Reads response (
            err (from_status e.cloud.status_text response.status (text_or_default e response.body)))

  -- What an upload from the state `s` comes to.
  pub data Delivers (batch : List Fields) (s : S)
      : Result UploadError SqlServerUploadResponse × S → Type 0 where
    unbuilt :
        {x : Error} → e.build (payload e batch s) ≡ err x → Delivers batch s (err (permanent x), s)
    unsent :
        {body : Body} {x : Error} {s' : S}
        → e.build (payload e batch s) ≡ ok body
        → e.cloud.send e.api.endpoint e.api.api_key body s ≡ (err x, s')
        → Delivers batch s
            (err (transient (context (codes "failed to send SQL Server upload request") x)), s')
    delivered :
        {body : Body} {response : HttpResponse} {s' : S}
        {r : Result UploadError SqlServerUploadResponse}
        → e.build (payload e batch s) ≡ ok body
        → e.cloud.send e.api.endpoint e.api.api_key body s ≡ (ok response, s')
        → Reads response r
        → Delivers batch s (r, s')

  read_body-Body : (body : Result Error Text) → Body_ body (read_body e body)
  unfolding read_body
  read_body-Body (err x) = unread
  read_body-Body (ok text) = elim (is_empty-cases (trim text)) [
    | inl (nothing, empty) ↦ rw (read_body, empty) (blank nothing)
    | inr (something, filled) ↦ elim (Result-cases (e.decode text)) [
      | inl (r, read) ↦ rw (read_body, filled, read) (decoded something read)
      | inr (x, failed) ↦ rw (read_body, filled, failed) (undecoded something failed)
    ]
  ]

  read_response-Reads : (response : HttpResponse) → Reads response (read_response e response)
  unfolding read_response
  read_response-Reads response = elim (Bool-cases (response.status == 204)) [
    | inl none_needed ↦
        rw (read_response, none_needed) (no_content ((==_iff response.status 204).0 none_needed))
    | inr more ↦ elim (Bool-cases (is_success response.status)) [
      | inl success ↦
          rw (read_response, more, success)
            (answered (λ k. ground arith) success (read_body-Body response.body))
      | inr failure ↦ rw (read_response, more, failure) (refused failure)
    ]
  ]

  sent-Delivers :
      (batch : List Fields) (s : S) (body : Body)
      → e.build (payload e batch s) ≡ ok body
      → (out : Result Error HttpResponse × S)
      → e.cloud.send e.api.endpoint e.api.api_key body s ≡ out
      → Delivers batch s (sent e out)
  unfolding sent
  sent-Delivers batch s body built (err x, s') same = unsent built same
  sent-Delivers batch s body built (ok response, s') same =
      delivered built same (read_response-Reads response)

  -- An upload ends in one of eight ways. A request that cannot be built is a permanent error, and one
  -- that cannot be sent or whose 2xx response cannot be read a transient one; 204 and a blank body
  -- accept all; another body of a 2xx response is what it decodes to, or else a permanent error; any
  -- other status is classified by `from_status` with the body, or with no text where it cannot be
  -- read. Only sending changes what is outside.
  pub upload_batch-Delivers :
      (batch : List Fields) (s : S) → Delivers batch s (upload_batch e batch s)
  unfolding upload_batch
  upload_batch-Delivers batch s = elim (Result-cases (e.build (payload e batch s))) [
    | inr (x, failed) ↦ rw (upload_batch, failed) (unbuilt failed)
    | inl (body, built) ↦ rw (upload_batch, built) (sent-Delivers batch s body built _ refl)
  ]
