-- ===== src/Sync/Engine/Fitting.antt =====
-- What the answers of the endpoint hold: ids that fit their type.
use weighing_data_sync.Prelude.{
  ℕ, ◌^◌, ◌<◌, ◌≤◌, ◌≡◌, refl, ap, ◌==◌, inl, inr, List, [], ◌∷◌, Text, All, arith, Bool-cases,
  is_empty, is_empty-cases, ◌&&◌,
}
use weighing_data_sync.Anyhow.{Error, Result, ok, err, chain_ok, map_context-eq-ok, Result-cases}
use weighing_data_sync.Db.{Db, mark_synced, mark_failed}
use weighing_data_sync.Db.Models.{WeighingRecord}
use mathlib.Core.List.{Permᴰ}
use weighing_data_sync.Db.Models.Codec.{Codec}
use weighing_data_sync.Db.Models.RoundTrip.{IsRecord}
use weighing_data_sync.Db.Insert.{ids_of}
use weighing_data_sync.Sync.Error.{permanent, is_success}
use weighing_data_sync.Sync.Cloud.{HttpResponse}
use weighing_data_sync.Sync.Retry.Laws.{Passes}
use weighing_data_sync.Sync.Engine.{
  SyncEngine, BatchUploadResponse, upload_batch, sent, read_response, read_json, accepted,
  unless_empty, payload,
}
use weighing_data_sync.Sync.Engine.Cycle.{IsEngine, Accepts, whole, named}

abbrev pub Fit : List ℕ → Type 0
Fit = All (λ i. i < 2 ^ 128)

pub ids_of-Fit : (rs : List WeighingRecord) → All IsRecord rs → Fit (ids_of rs)
ids_of-Fit [] h = tt
ids_of-Fit (r ∷ rs) (k, h) = (k.id_fits, ids_of-Fit rs h)

abbrev pub FitResponse : BatchUploadResponse → Type 0
FitResponse r = Fit r.accepted_ids × Fit r.failed_ids

pub unless_empty-mark_synced :
    (c : Codec) (now : ℕ) (ids : List ℕ) (db : Db)
    → unless_empty ids (mark_synced c now ids) db ≡ mark_synced c now ids db
unfolding mark_synced
unless_empty-mark_synced c now [] db = refl
unless_empty-mark_synced c now (i ∷ ids) db = refl

pub unless_empty-mark_failed :
    (c : Codec) (now : ℕ) (ids : List ℕ) (error : Text) (db : Db)
    → unless_empty ids (mark_failed c now ids error) db ≡ mark_failed c now ids error db
unfolding mark_failed
unless_empty-mark_failed c now [] error db = refl
unless_empty-mark_failed c now (i ∷ ids) error db = refl

pub perm-nil {ℓ} : {A : Type ℓ} {xs ys : List A} → Permᴰ xs ys → ys ≡ [] → xs ≡ []
perm-nil Permᴰ.nil e = refl
perm-nil (Permᴰ.cons a p) e = cc
perm-nil (Permᴰ.swap a b) e = cc
perm-nil (Permᴰ.trans p q) e = perm-nil p (perm-nil q e)

module _ {Body S : Type 0} (e : SyncEngine Body S) (lawful : IsEngine e) where
  pub sent-state :
      (batch : List WeighingRecord) (out : Result Error HttpResponse × S)
      → (sent e batch out).1 ≡ out.1
  unfolding sent
  sent-state batch (err x, s) = refl
  sent-state batch (ok response, s) = refl

  pub upload_batch-Passes :
      (batch : List WeighingRecord) → Passes e.cloud.timer (upload_batch e batch)
  unfolding upload_batch
  upload_batch-Passes batch = record { later = λ s. built s (e.build (payload e batch s)) refl }
    where
      built :
          (s : S) (b : Result Error Body)
          → e.build (payload e batch s) ≡ b
          → e.cloud.timer.now s ≤ e.cloud.timer.now (upload_batch e batch s).1
      built s (err x) same = rw (same, upload_batch) (omega arith)
      built s (ok body) same =
          rw (same, upload_batch)
            (rw sent-state (lawful.send_later e.api.endpoint e.api.api_key body s))

  pub read_json-Fit :
      (response : HttpResponse) (r : BatchUploadResponse)
      → read_json e response ≡ ok r
      → FitResponse r
  unfolding read_json
  read_json-Fit response r h =
      let (text, body, decoded) =
        chain_ok response.body e.decode r (map_context-eq-ok permanent _ _ h) in
      lawful.decoded text r decoded

  pub read_response-Fit :
      (batch : List WeighingRecord) (response : HttpResponse) (r : BatchUploadResponse)
      → All IsRecord batch
      → read_response e batch response ≡ ok r
      → FitResponse r
  unfolding read_response
  read_response-Fit batch response r known h = elim (Bool-cases (response.status == 204)) [
    | inl none_needed ↦
        let same : record { accepted_ids = ids_of batch; failed_ids = [] } ≡ r = ground arith in
        rw (← same) (ids_of-Fit batch known, tt)
    | inr more ↦ elim (Bool-cases (is_success response.status)) [
      | inl success ↦ read_json-Fit response r (ground arith)
      | inr failure ↦ absurd (ground arith)
    ]
  ]

  pub sent-Fit :
      (batch : List WeighingRecord) (r : BatchUploadResponse) (s' : S)
      (out : Result Error HttpResponse × S)
      → All IsRecord batch
      → sent e batch out ≡ (ok r, s')
      → FitResponse r
  unfolding sent
  sent-Fit batch r s' (err x, s) known h = cc
  sent-Fit batch r s' (ok response, s) known h =
      read_response-Fit batch response r known (ap (λ p. p.0) h)

  pub Answered-Fit :
      (batch : List WeighingRecord) (r : BatchUploadResponse) (s s' : S)
      → All IsRecord batch
      → upload_batch e batch s ≡ (ok r, s')
      → FitResponse r
  unfolding upload_batch
  Answered-Fit batch r s s' known h = elim (Result-cases (e.build (payload e batch s))) [
    | inl (body, built) ↦
        sent-Fit batch r s' (e.cloud.send e.api.endpoint e.api.api_key body s) known
          (rw (built, upload_batch) at h)
    | inr (x, failed) ↦ let h' = rw (failed, upload_batch) at h in cc
  ]

  pub accepted-Fit :
      (batch : List WeighingRecord) (r : BatchUploadResponse)
      → All IsRecord batch
      → FitResponse r
      → Fit (accepted e batch r)
  unfolding accepted
  accepted-Fit batch r known fit =
      elim (Bool-cases (is_empty r.accepted_ids && is_empty r.failed_ids)) [
        | inl silent ↦ rw silent (ids_of-Fit batch known)
        | inr told ↦ rw told fit.0
      ]

  pub accepted-Accepts :
      (batch : List WeighingRecord) (r : BatchUploadResponse) → Accepts batch r (accepted e batch r)
  unfolding accepted
  accepted-Accepts batch r = elim (is_empty-cases r.accepted_ids) [
    | inr (some_named, a) ↦ rw (accepted, a) (named (inl some_named))
    | inl (none_named, a) ↦ elim (is_empty-cases r.failed_ids) [
      | inr (some_failed, f) ↦ rw (accepted, a, f) (named (inr some_failed))
      | inl (none_failed, f) ↦ rw (accepted, a, f) (whole none_named none_failed)
    ]
  ]
