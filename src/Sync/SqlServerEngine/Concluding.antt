-- ===== src/Sync/SqlServerEngine/Concluding.antt =====
-- What a cycle of the SQL Server engine does with the records of the query.
use weighing_data_sync.Prelude.{
  ℕ, ◌≤◌, ◌≡◌, refl, sym, ◌∙◌, ap, subst, ◌⊎◌, inl, inr, true, Bool-cases, Option, some, List, [],
  ◌∷◌, ◌++◌, append-nil, map, Text, is_empty-cases, arith,
}
use weighing_data_sync.Anyhow.{Error, Result, ok, err}
use weighing_data_sync.Json.{Fields}
use weighing_data_sync.Config.Sections.{retry_initial_delay, retry_max_delay, retry_max_elapsed}
use weighing_data_sync.Source.SqlServer.{WeightRow, Database, marked}
use weighing_data_sync.Source.SqlServer.Steps.{HasFault}
use weighing_data_sync.Source.SqlServer.Marking.{Marked, mark_uploaded-Marked, map-marked-nil}
use weighing_data_sync.Source.SqlServer.Row.{SqlServerWeightRecord}
use weighing_data_sync.Sync.{SyncOutcome}
use weighing_data_sync.Sync.Error.{transient, permanent}
use weighing_data_sync.Sync.Cloud.{HttpResponse}
use weighing_data_sync.Sync.Retry.Laws.{Passes, retry_transient_total}
use weighing_data_sync.Sync.Retry.Budget.{Ended, retry_transient-Ended}
use weighing_data_sync.Sync.SqlServerEngine.{
  SqlServerSyncEngine, SqlServerUploadResponse, World, payload, sent, upload_batch, accepted,
  marking, reported, conclude, process, serial_nos_of,
}
use weighing_data_sync.Sync.SqlServerEngine.Cycle.{
  IsEngine, Accepts, whole, named, markings, Taken, Answered, Cycle, upload_failed, uploaded,
  marking_stopped,
}

module _ {Body S : Type 0} (e : SqlServerSyncEngine Body S) (lawful : IsEngine e) where
  sent-state : (out : Result Error HttpResponse × S) → (sent e out).1 ≡ out.1
  unfolding sent
  sent-state (err x, s) = refl
  sent-state (ok response, s) = refl

  upload_batch-Passes : (batch : List Fields) → Passes e.cloud.timer (upload_batch e batch)
  unfolding upload_batch
  upload_batch-Passes batch = record { later = λ s. built s (e.build (payload e batch s)) refl }
    where
      built :
          (s : S) (b : Result Error Body)
          → e.build (payload e batch s) ≡ b
          → e.cloud.timer.now s ≤ e.cloud.timer.now (upload_batch e batch s).1
      built s (err x) same = rw (same, upload_batch) (omega arith)
      built s (ok body) same =
          rw (same, upload_batch)
            (rw sent-state (lawful.send_later e.api.endpoint e.api.api_key body s))

  accepted-Accepts :
      (batch : List Text) (r : SqlServerUploadResponse) → Accepts batch r (accepted e batch r)
  unfolding accepted
  accepted-Accepts batch r = elim (is_empty-cases r.accepted_serial_nos) [
    | inr (some_named, a) ↦ rw (accepted, a) (named (inl some_named))
    | inl (none_named, a) ↦ elim (is_empty-cases r.failed_serial_nos) [
      | inr (some_failed, f) ↦ rw (accepted, a, f) (named (inr some_failed))
      | inl (none_failed, f) ↦ rw (accepted, a, f) (whole none_named none_failed)
    ]
  ]

  -- What marking comes to, where nothing is done for an empty list.
  abbrev MarksOr : List Text → Database → Result Error (Unit {0}) × Database → Type 0
  MarksOr ids db out =
      ((db' : Database) × (out ≡ (ok tt, db')) × (db'.rows ≡ markings e ids db.rows))
      ⊎ ((db' : Database) × (x : Error) × (done : List Text) × (left : List Text) × (out
            ≡ (err x, db'))
          × (ids ≡ done ++ left)
          × (db'.rows ≡ markings e done db.rows)
          × HasFault db)

  markings-nil : (rows : List WeightRow) → markings e [] rows ≡ rows
  markings-nil rows = elim (Bool-cases e.source.cfg.mark_uploaded) [
    | inl enabled ↦ rw enabled (map-marked-nil e.equal rows)
    | inr disabled ↦ rw disabled
  ]

  Marked-MarksOr :
      (ids : List Text) (db : Database) (out : Result Error (Unit {0}) × Database)
      → e.source.cfg.mark_uploaded ≡ true
      → Marked e.equal ids db out
      → MarksOr ids db out
  Marked-MarksOr ids db (ok _, db') enabled m = inl (
    db',
    refl,
    m.rows
        ∙ rw enabled (
            ap (λ l. map (marked e.equal l) db.rows)
              (sym (m.split ∙ ap (λ l. m.sent ++ l) (m.all_sent refl) ∙ append-nil m.sent))),
  )
  Marked-MarksOr ids db (err x, db') enabled m =
      inr (db', x, m.sent, m.left, refl, m.split, m.rows ∙ rw enabled, m.stopped x refl)

  marking-MarksOr : (ids : List Text) (db : Database) → MarksOr ids db (marking e ids db)
  marking-MarksOr ids db =
      let (off, on) = mark_uploaded-Marked e.equal e.show e.address e.source ids db in
      elim (Bool-cases e.source.cfg.mark_uploaded) [
        | inl enabled ↦ Marked-MarksOr ids db (marking e ids db) enabled (on enabled)
        | inr disabled ↦ inl (db, off disabled, rw disabled)
      ]

  -- What a cycle comes to on a server: the rows that are left, as specified.
  abbrev pub Ends : Database → Result Error SyncOutcome × Database → Type 0
  Ends db out = (rows : List WeightRow) × (out.1.rows ≡ rows) × Cycle e db out.0 rows

  module _ (db db' : Database) (same : db'.rows ≡ db.rows) (script : HasFault db' → HasFault db)
      (records : List SqlServerWeightRecord) (taken : Taken e db records) (s : S) where
    reported-Ends :
        (response : SqlServerUploadResponse) (ids : List Text)
        (out : Result Error (Unit {0}) × Database)
        → Answered e records (ok response) s
        → Accepts (serial_nos_of records) response ids
        → MarksOr ids db' out
        → Ends db (reported e (serial_nos_of records) ids response out)
    reported-Ends response ids out answered accepts (inl (db_1, runs, rows)) = rw runs (
      markings e ids db.rows,
      rows ∙ ap (markings e ids) same,
      uploaded records response ids s taken answered accepts,
    )
    reported-Ends response ids out answered accepts
          (inr (db_1, x, done, left, runs, split, rows, fault)) =
        rw runs (
          markings e done db.rows,
          rows ∙ ap (markings e done) same,
          marking_stopped records response done left s x taken answered
              (subst (λ l. Accepts (serial_nos_of records) response l) split accepts)
              (script fault),
        )

    conclude_success :
        (response : SqlServerUploadResponse)
        → Answered e records (ok response) s
        → Ends db (conclude e (serial_nos_of records) (ok response) db')
    unfolding conclude
    conclude_success response answered =
        let ids = accepted e (serial_nos_of records) response in
        let accepts = accepted-Accepts (serial_nos_of records) response in
        elim (is_empty-cases ids) [
          | inl (nothing, empty) ↦
              rw (conclude, empty)
                (reported-Ends response ids (ok tt, db') answered accepts
                  (inl (
                    db',
                    refl,
                    sym (ap (λ l. markings e l db'.rows) nothing ∙ markings-nil db'.rows),
                  )))
          | inr (_, filled) ↦
              rw (conclude, filled)
                (reported-Ends response ids (marking e ids db') answered accepts
                  (marking-MarksOr ids db'))
        ]

    concluded :
        (max_elapsed started_at : ℕ) (result : Result Error SqlServerUploadResponse)
        → Ended e.cloud.timer
            (upload_batch e (map (λ r. r.data_) records))
            max_elapsed
            started_at
            result
            s
        → Ends db (conclude e (serial_nos_of records) result db')
    unfolding conclude
    concluded max_elapsed started_at (ok response) ended = conclude_success response ended
    concluded max_elapsed started_at (err x) (before, inl answer) =
        (db.rows, same, upload_failed records (permanent x) s taken (before, answer))
    concluded max_elapsed started_at (err x) (before, inr (answer, spent)) =
        (db.rows, same, upload_failed records (transient x) s taken (before, answer))

  -- What `process` comes to.
  abbrev pub Processed : Database → Option (Result Error SyncOutcome × World S) → Type 0
  Processed db out =
      (r : Result Error SyncOutcome) × (w : World S) × (out ≡ some (r, w)) × Ends db (r, w.db)

  pub process-Processed :
      (db : Database) (w : World S)
      → w.db.rows ≡ db.rows
      → (HasFault w.db → HasFault db)
      → (r : SqlServerWeightRecord) (records : List SqlServerWeightRecord)
      → Taken e db (r ∷ records)
      → Processed db (process e (ok (r ∷ records)) w)
  unfolding process
  process-Processed db w same script r records taken =
      let batch = map (λ x. x.data_) (r ∷ records) in
      let (report, returned) =
        retry_transient_total e.cloud.timer (upload_batch e batch) lawful.timer
          (upload_batch-Passes batch) (retry_initial_delay e.sync) (retry_max_delay e.sync)
          (retry_max_elapsed e.sync) w.outside in
      let ended =
        retry_transient-Ended e.cloud.timer (upload_batch e batch) (retry_initial_delay e.sync)
          (retry_max_delay e.sync) (retry_max_elapsed e.sync) w.outside report returned in
      let out = conclude e (serial_nos_of (r ∷ records)) report.result w.db in
      (
        out.0,
        record { db = out.1; outside = report.final },
        rw (returned, process),
        concluded db w.db same script (r ∷ records) taken report.final (retry_max_elapsed e.sync)
            (e.cloud.timer.now w.outside) report.result ended,
      )
