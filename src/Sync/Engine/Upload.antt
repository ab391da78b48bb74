-- ===== src/Sync/Engine/Upload.antt =====
-- What one upload of a batch comes to.
use weighing_data_sync.Prelude.{
  ◌≡◌, ◌≢◌, refl, ◌⊎◌, inl, inr, true, false, Bool-cases, ◌==◌, ==_iff, List, [], Text, codes,
  arith,
}
use weighing_data_sync.Anyhow.{Error, context, Result, ok, err, Result-cases}
use weighing_data_sync.Db.Models.{WeighingRecord}
use weighing_data_sync.Db.Insert.{ids_of}
use weighing_data_sync.Sync.Error.{UploadError, transient, permanent, from_status, is_success}
use weighing_data_sync.Sync.Cloud.{HttpResponse}
use weighing_data_sync.Sync.Engine.{
  SyncEngine, BatchUploadResponse, payload, read_json, read_response, sent, upload_batch,
  text_or_default,
}

module _ {Body S : Type 0} (e : SyncEngine Body S) (batch : List WeighingRecord) where
  -- What a response comes to.
  pub data Reads (response : HttpResponse) : Result UploadError BatchUploadResponse → Type 0 where
    no_content :
        response.status ≡ 204
        → Reads response (ok (record { accepted_ids = ids_of batch; failed_ids = [] }))
    answered :
        {text : Text} {r : BatchUploadResponse}
        → response.status ≢ 204
        → is_success response.status ≡ true
        → response.body ≡ ok text
        → e.decode text ≡ ok r
        → Reads response (ok r)
    unread :
        {x : Error}
        → response.status ≢ 204
        → is_success response.status ≡ true
        → response.body ≡ err x
        → Reads response (err (permanent (context (codes "failed to decode upload response") x)))
    undecoded :
        {text : Text} {x : Error}
        → response.status ≢ 204
        → is_success response.status ≡ true
        → response.body ≡ ok text
        → e.decode text ≡ err x
        → Reads response (err (permanent (context (codes "failed to decode upload response") x)))
    refused :
        is_success response.status ≡ false
        → Reads response (
            err (from_status e.cloud.status_text response.status (text_or_default e response.body)))

  -- What an upload from the state `s` comes to.
  pub data Uploads (s : S) : Result UploadError BatchUploadResponse × S → Type 0 where
    unbuilt : {x : Error} → e.build (payload e batch s) ≡ err x → Uploads s (err (permanent x), s)
    unsent :
        {body : Body} {x : Error} {s' : S}
        → e.build (payload e batch s) ≡ ok body
        → e.cloud.send e.api.endpoint e.api.api_key body s ≡ (err x, s')
        → Uploads s (err (transient (context (codes "failed to send upload request") x)), s')
    delivered :
        {body : Body} {response : HttpResponse} {s' : S}
        {r : Result UploadError BatchUploadResponse}
        → e.build (payload e batch s) ≡ ok body
        → e.cloud.send e.api.endpoint e.api.api_key body s ≡ (ok response, s')
        → Reads response r
        → Uploads s (r, s')

  -- What reading the JSON of a response comes to.
  read_json_cases :
      (response : HttpResponse)
      → ((text : Text) × (r : BatchUploadResponse) × (response.body ≡ ok text)
          × (e.decode text ≡ ok r)
          × (read_json e response ≡ ok r))
        ⊎ ((text : Text) × (x : Error) × (response.body ≡ ok text)
            × (e.decode text ≡ err x)
            × (read_json e response
                ≡ err (permanent (context (codes "failed to decode upload response") x))))
        ⊎ ((x : Error) × (response.body ≡ err x)
            × (read_json e response
                ≡ err (permanent (context (codes "failed to decode upload response") x))))
  unfolding read_json
  read_json_cases response = elim (Result-cases response.body) [
    | inr (x, broken) ↦ inr (inr (x, broken, cc))
    | inl (text, body) ↦ elim (Result-cases (e.decode text)) [
      | inl (r, decoded) ↦ inl (text, r, body, decoded, cc)
      | inr (x, failed) ↦ inr (inl (text, x, body, failed, cc))
    ]
  ]

  read_json-Reads :
      (response : HttpResponse)
      → response.status ≢ 204
      → is_success response.status ≡ true
      → Reads response (read_json e response)
  read_json-Reads response more success = elim (read_json_cases response) [
    | inl (text, r, body, decoded, reads) ↦ rw reads (answered more success body decoded)
    | inr (inl (text, x, body, failed, reads)) ↦ rw reads (undecoded more success body failed)
    | inr (inr (x, broken, reads)) ↦ rw reads (unread more success broken)
  ]

  read_response-Reads : (response : HttpResponse) → Reads response (read_response e batch response)
  unfolding read_response
  read_response-Reads response = elim (Bool-cases (response.status == 204)) [
    | inl none_needed ↦
        rw (read_response, none_needed) (no_content ((==_iff response.status 204).0 none_needed))
    | inr more ↦ elim (Bool-cases (is_success response.status)) [
      | inl success ↦
          rw (read_response, more, success) (read_json-Reads response (λ k. ground arith) success)
      | inr failure ↦ rw (read_response, more, failure) (refused failure)
    ]
  ]

  sent-Uploads :
      (s : S) (body : Body)
      → e.build (payload e batch s) ≡ ok body
      → (out : Result Error HttpResponse × S)
      → e.cloud.send e.api.endpoint e.api.api_key body s ≡ out
      → Uploads s (sent e batch out)
  unfolding sent
  sent-Uploads s body built (err x, s') same = unsent built same
  sent-Uploads s body built (ok response, s') same =
      delivered built same (read_response-Reads response)

  -- An upload ends in one of six ways. A request that cannot be built is a permanent error and one
  -- that cannot be sent a transient one; 204 accepts the whole batch; another 2xx is what its body
  -- decodes to, or a permanent error if the body cannot be read or decoded; any other status is
  -- classified by `from_status` with the body, or with no text where it cannot be read. Only sending
  -- changes what is outside.
  pub upload_batch-Uploads : (s : S) → Uploads s (upload_batch e batch s)
  unfolding upload_batch
  upload_batch-Uploads s = elim (Result-cases (e.build (payload e batch s))) [
    | inr (x, failed) ↦ rw (upload_batch, failed) (unbuilt failed)
    | inl (body, built) ↦ rw (upload_batch, built) (sent-Uploads s body built _ refl)
  ]
