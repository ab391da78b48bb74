-- ===== src/Sync/Engine/Refines.antt =====
-- The local engine does what `Cycle` says.
use weighing_data_sync.Prelude.{
  ℕ, ◌≡◌, ◌≢◌, refl, sym, inl, inr, Option, some, List, [], ◌∷◌, map, length, keep,
}
use weighing_data_sync.Anyhow.{Error, context, to_string, Result, ok, err}
use weighing_data_sync.Config.Sections.{retry_initial_delay, retry_max_delay, retry_max_elapsed}
use weighing_data_sync.Db.{Db, is_due, fetch_pending, mark_synced}
use weighing_data_sync.Db.Models.{WeighingRecord, to_model}
use mathlib.Core.List.{Permᴰ, cons-ne-nil}
use weighing_data_sync.Db.Insert.{ids_of}
use weighing_data_sync.Db.Store.{Holds, Holds-same, HasFault, mark_synced-Turns, mark_failed-Turns}
use weighing_data_sync.Db.Fetch.{Batch, fetch_pending-Batch, query_failed}
use weighing_data_sync.Sync.{SyncOutcome, no_data}
use weighing_data_sync.Sync.Error.{UploadError, transient, permanent, cause}
use weighing_data_sync.Sync.Retry.Laws.{retry_transient_total}
use weighing_data_sync.Sync.Retry.Budget.{Ended, retry_transient-Ended}
use weighing_data_sync.Sync.Engine.{
  SyncEngine, BatchUploadResponse, World, upload_batch, accepted, conclude, process, sync_once,
  rejected_text,
}
use weighing_data_sync.Sync.Engine.Cycle.{
  IsEngine, Answered, Cycle, db_failed, nothing_due, no_room, upload_failed, uploaded,
  failed_unmarked, after_synced,
}
use weighing_data_sync.Sync.Engine.Fitting.{
  Answered-Fit, accepted-Accepts, accepted-Fit, ids_of-Fit, perm-nil, unless_empty-mark_failed,
  unless_empty-mark_synced, upload_batch-Passes,
}

module _ {Body S : Type 0} (e : SyncEngine Body S) (lawful : IsEngine e) where
  -- What a cycle comes to: the records that are left, and that they are as specified.
  abbrev Ends : Db → List WeighingRecord → Result Error SyncOutcome × Db → Type 0
  Ends db rs out = (rs' : List WeighingRecord) × Holds e.codec out.1 rs' × Cycle e db rs out.0 rs'

  module _ (db db' : Db) (rs : List WeighingRecord) (h : Holds e.codec db' rs)
      (later : HasFault db' → HasFault db) (batch : List WeighingRecord)
      (b : Batch e.codec rs e.sync.batch_size batch) (s : S) where
    conclude_failure :
        (u : UploadError)
        → Answered e batch (err u) s
        → Ends db rs (conclude e batch (err (cause u)) s db')
    unfolding conclude
    conclude_failure u answered =
        let (_, turns) =
          mark_failed-Turns e.codec lawful.codec db' rs h (e.cloud.utc 0 s) (ids_of batch)
            (to_string (cause u)) (lawful.utc_fits 0 s) (ids_of-Fit batch b.known) in
        elim turns [
          | inl (marked, held) ↦ rw marked (_, held, upload_failed batch u s b answered)
          | inr (x, failed, held, fault) ↦ rw failed (rs, held, db_failed x (later fault))
        ]

    conclude_success :
        (response : BatchUploadResponse)
        → Answered e batch (ok response) s
        → Ends db rs (conclude e batch (ok response) s db')
    unfolding conclude
    conclude_success response answered =
        let fit = Answered-Fit e lawful batch response answered.0 s b.known answered.1 in
        let marks = accepted e batch response in
        let (later_1, turns) =
          mark_synced-Turns e.codec lawful.codec db' rs h (e.cloud.utc 0 s) marks
            (lawful.utc_fits 0 s) (accepted-Fit e lawful batch response b.known fit) in
        rw (unless_empty-mark_synced e.codec (e.cloud.utc 0 s) marks db') (elim turns [
          | inl (marked, held) ↦
              let db_1 = (mark_synced e.codec (e.cloud.utc 0 s) marks db').1 in
              let (_, turns_2) =
                mark_failed-Turns e.codec lawful.codec db_1 (after_synced e s marks rs) held
                  (e.cloud.utc 1 s) response.failed_ids (rejected_text e) (lawful.utc_fits 1 s)
                  fit.1 in
              rw marked (
                rw
                  (unless_empty-mark_failed e.codec (e.cloud.utc 1 s) response.failed_ids
                    (rejected_text e) db_1)
                  (elim turns_2 [
                    | inl (noted, kept) ↦ rw noted (
                      _,
                      kept,
                      uploaded batch response marks s (accepted-Accepts e lawful batch response) b
                          answered,
                    )
                    | inr (x, failed, kept, fault) ↦ rw failed (
                      _,
                      kept,
                      failed_unmarked batch response marks s x
                          (accepted-Accepts e lawful batch response) (later (later_1 fault)) b
                          answered,
                    )
                  ]))
          | inr (x, failed, held, fault) ↦ rw failed (rs, held, db_failed x (later fault))
        ])

    concluded :
        (max_elapsed started_at : ℕ) (result : Result Error BatchUploadResponse)
        → Ended e.cloud.timer (upload_batch e batch) max_elapsed started_at result s
        → Ends db rs (conclude e batch result s db')
    concluded max_elapsed started_at (ok response) ended = conclude_success response ended
    concluded max_elapsed started_at (err x) (before, inl answer) =
        conclude_failure (permanent x) (before, answer)
    concluded max_elapsed started_at (err x) (before, inr (answer, spent)) =
        conclude_failure (transient x) (before, answer)

  -- What `process` comes to.
  abbrev Processed : Db → List WeighingRecord → Option (Result Error SyncOutcome × World S) → Type 0
  Processed db rs out =
      (r : Result Error SyncOutcome) × (w : World S) × (out ≡ some (r, w)) × Ends db rs (r, w.db)

  process-nil :
      (db : Db) (rs : List WeighingRecord)
      → Batch e.codec rs e.sync.batch_size []
      → Cycle e db rs (ok no_data) rs
  process-nil db rs b = none_left b.rest b.all_due b.full
    where
      none_left :
          (rest : List WeighingRecord)
          → Permᴰ (keep is_due (map (to_model e.codec) rs)) (map (to_model e.codec) rest)
          → (rest ≢ [] → length {A = WeighingRecord} [] ≡ e.sync.batch_size)
          → Cycle e db rs (ok no_data) rs
      none_left [] p full = nothing_due (perm-nil p refl)
      none_left (m ∷ ms) p full = no_room (sym (full (cons-ne-nil m ms)))

  process-Processed :
      (db : Db) (rs : List WeighingRecord) (w : World S)
      → Holds e.codec w.db rs
      → (HasFault w.db → HasFault db)
      → (batch : List WeighingRecord) → Batch e.codec rs e.sync.batch_size batch
      → Processed db rs (process e (ok batch) w)
  unfolding process
  process-Processed db rs w h later [] b = (ok no_data, w, refl, (rs, h, process-nil db rs b))
  process-Processed db rs w h later (r ∷ batch) b =
      let (report, returned) =
        retry_transient_total e.cloud.timer (upload_batch e (r ∷ batch)) lawful.timer
          (upload_batch-Passes e lawful (r ∷ batch)) (retry_initial_delay e.sync)
          (retry_max_delay e.sync) (retry_max_elapsed e.sync) w.outside in
      let ended =
        retry_transient-Ended e.cloud.timer (upload_batch e (r ∷ batch))
          (retry_initial_delay e.sync) (retry_max_delay e.sync) (retry_max_elapsed e.sync) w.outside
          report returned in
      let out = conclude e (r ∷ batch) report.result report.final w.db in
      (
        out.0,
        record { db = out.1; outside = report.final },
        rw (returned, process),
        concluded db w.db rs h later (r ∷ batch) b report.final (retry_max_elapsed e.sync)
            (e.cloud.timer.now w.outside) report.result ended,
      )

  -- A cycle always returns, and does what `Cycle` says of the records that the cache holds: it
  -- fails with nothing marked if the database fails first; reports no data if nothing is due or the
  -- batch size is zero; marks the whole batch failed, with the error, if the upload failed; or marks
  -- what the endpoint accepted as synced and then what it rejected as failed, and reports the
  -- counts. Only a failing statement cuts it short. The libraries and the clock must behave as
  -- `IsEngine` says.
  pub sync_once_refines :
      (w : World S) (rs : List WeighingRecord)
      → Holds e.codec w.db rs
      → (r : Result Error SyncOutcome) × (w' : World S) × (rs' : List WeighingRecord) × (sync_once e
            w
          ≡ some (r, w'))
        × Holds e.codec w'.db rs'
        × Cycle e w.db rs r rs'
  unfolding sync_once process
  sync_once_refines w rs h =
      let (same, outcome) =
        fetch_pending-Batch e.codec lawful.codec e.sqlite lawful.sqlite rs e.sync.batch_size w.db
          h in
      let db = (fetch_pending e.codec e.sqlite e.sync.batch_size w.db).1 in
      let held = Holds-same e.codec w.db db rs same h in
      elim outcome [
        | inl (x, failed, fault) ↦ (
          err (context query_failed x),
          record w { db = db },
          rs,
          rw failed,
          held,
          db_failed (context query_failed x) fault,
        )
        | inr (batch, fetched, b) ↦
            let (r, w', returned, (rs', kept, cycle)) =
              process-Processed w.db rs (record w { db = db }) held same.2 batch b in
            (r, w', rs', rw fetched returned, kept, cycle)
      ]
