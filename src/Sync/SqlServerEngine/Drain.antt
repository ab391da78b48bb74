-- ===== src/Sync/SqlServerEngine/Drain.antt =====
-- What repeated cycles of the SQL Server engine get done where marking is enabled and nothing fails.
use weighing_data_sync.Prelude.{
  ℕ, zero, suc, ◌-◌, ◌*◌, ◌≤◌, ◌≡◌, refl, sym, ap, subst, inl, inr, Bool-cases, arith, Option, none,
  some, Option-cases, List, [], ◌∷◌, map, any, is_some, is_empty, All, Pairs, Text,
}
use weighing_data_sync.Anyhow.{Error, Result, ok, err}
use weighing_data_sync.Source.SqlServer.{WeightRow, Database}
use weighing_data_sync.Source.SqlServer.Steps.{HasFault}
use weighing_data_sync.Source.SqlServer.Quiet.{
  Quiet, attempt_nothing-Quiet, connect-Quiet, mark_uploaded-Quiet,
}
use weighing_data_sync.Source.SqlServer.Row.{SqlServerWeightRecord}
use weighing_data_sync.Source.SqlServer.Fetch.{is_pending, fetch_pending}
use weighing_data_sync.Sync.{SyncOutcome}
use weighing_data_sync.Sync.SqlServerEngine.{
  SqlServerSyncEngine, SqlServerUploadResponse, World, accepted, marking, reported, conclude,
  upload_with_retry, process, sync_once, serial_nos_of,
}
use weighing_data_sync.Sync.SqlServerEngine.Cycle.{IsEngine}
use weighing_data_sync.Sync.SqlServerEngine.Refines.{sync_once_follows}
use weighing_data_sync.Sync.SqlServerEngine.Safety.{Justified, Cycle-Justified}
use weighing_data_sync.Sync.SqlServerEngine.Taking.{IsUp, TakesAll, IsUp-TakesAll}
use weighing_data_sync.Sync.SqlServerEngine.Progress.{Cycle-progress}
use weighing_data_sync.Sync.SqlServerEngine.Waiting.{Ready, waiting}

module _ {Body S : Type 0} (e : SqlServerSyncEngine Body S) where
  reported-Quiet :
      (serial_nos ids : List Text) (response : SqlServerUploadResponse)
      (out : Result Error (Unit {0}) × Database)
      → Quiet out.1
      → Quiet (reported e serial_nos ids response out).1
  reported-Quiet serial_nos ids response (ok u, db) h = h
  reported-Quiet serial_nos ids response (err x, db) h = h

  conclude-Quiet :
      (serial_nos : List Text) (result : Result Error SqlServerUploadResponse) (db : Database)
      → Quiet db
      → Quiet (conclude e serial_nos result db).1
  unfolding conclude
  conclude-Quiet serial_nos (err x) db h = h
  conclude-Quiet serial_nos (ok response) db h =
      elim (Bool-cases (is_empty (accepted e serial_nos response))) [
        | inl nothing ↦
            rw (conclude, nothing)
              (reported-Quiet serial_nos (accepted e serial_nos response) response (ok tt, db) h)
        | inr something ↦
            rw (conclude, something)
              (reported-Quiet serial_nos (accepted e serial_nos response) response
                (marking e (accepted e serial_nos response) db)
                (mark_uploaded-Quiet e.equal e.show e.address e.source
                  (accepted e serial_nos response) db h))
      ]

  fetch_pending-Quiet :
      (db : Database)
      → Quiet db
      → (fetch_pending e.driver e.tsql e.address e.sync.batch_size db).1 ≡ db
  unfolding fetch_pending
  fetch_pending-Quiet db h = rw (
    fetch_pending,
    connect-Quiet e.address db h,
    attempt_nothing-Quiet _ db h,
    attempt_nothing-Quiet _ db h,
  )

  -- Nothing comes out, or a quiet server does.
  abbrev QuietOut : Option (Result Error SyncOutcome × World S) → Type 0
  QuietOut none = Unit
  QuietOut (some (r, w)) = Quiet w.db

  process-Quiet :
      (fetched : Result Error (List SqlServerWeightRecord)) (w : World S)
      → Quiet w.db
      → QuietOut (process e fetched w)
  unfolding process
  process-Quiet (err x) w h = h
  process-Quiet (ok []) w h = h
  process-Quiet (ok (x ∷ xs)) w h =
      elim (Option-cases (upload_with_retry e (map (λ x. x.data_) (x ∷ xs)) w.outside)) [
        | inl never ↦ rw (process, never) tt
        | inr (report, returned) ↦
            rw (process, returned) (conclude-Quiet (serial_nos_of (x ∷ xs)) report.result w.db h)
      ]

  sync_once-Quiet : (w : World S) → Quiet w.db → QuietOut (sync_once e w)
  unfolding sync_once
  sync_once-Quiet w h =
      let fetched = fetch_pending e.driver e.tsql e.address e.sync.batch_size w.db in
      process-Quiet fetched.0 (record w { db = fetched.1 }) (rw (fetch_pending-Quiet w.db h) h)

  -- So many cycles, whatever their results are.
  unfoldable pub cycles : ℕ → World S → Option (World S)
  cycles zero w = some w
  cycles (suc n) w = elim (sync_once e w) [ none ↦ none | some out ↦ cycles n out.1 ]

  Justified-Ready :
      (db : Database) (rows rows' : List WeightRow)
      → Pairs (Justified e db) rows rows'
      → All (Ready e.driver e.tsql) rows
      → All (Ready e.driver e.tsql) rows'
  unfolding is_pending
  Justified-Ready db [] [] p h = tt
  Justified-Ready db [] (row' ∷ rows') p h = elim p [ ]
  Justified-Ready db (row ∷ rows) [] p h = elim p [ ]
  Justified-Ready db (row ∷ rows) (row' ∷ rows') (inl same, p) (ready, h) =
      (rw same ready, Justified-Ready db rows rows' p h)
  Justified-Ready db (row ∷ rows) (row' ∷ rows') (inr (flagged, _), p) (ready, h) = (
    λ pending. let settled = ap is_pending flagged in absurd cc,
    Justified-Ready db rows rows' p h,
  )

  -- Where marking is enabled, no step at the server fails, every waiting row can be converted and the
  -- endpoint accepts whole batches, `n` cycles return, and at most as many rows still wait as did
  -- before less `n` times `batch_size`.
  pub cycles-take :
      IsEngine e
      → TakesAll e
      → (n : ℕ) (w : World S) → w.db.faults ≡ []
      → All (Ready e.driver e.tsql) w.db.rows
      → (w' : World S) × (cycles n w ≡ some w')
        × (waiting w'.db.rows ≤ waiting w.db.rows - n * e.sync.batch_size)
  unfolding cycles
  cycles-take lawful up zero w quiet ready = (w, refl, omega arith)
  cycles-take lawful up (suc n) w quiet ready =
      let (r, w', returned, (rows, left, cycle)) = sync_once_follows e lawful w in
      let (_, fewer) = Cycle-progress e up (λ fault. never fault) ready cycle in
      let ready' =
        subst (All (Ready e.driver e.tsql)) (sym left)
          (Justified-Ready w.db w.db.rows rows (Cycle-Justified e cycle) ready) in
      let quiet' = subst QuietOut returned (sync_once-Quiet w quiet) in
      let (w'', ran, fewer_) = cycles-take lawful up n w' quiet' ready' in
      (w'', rw (cycles, returned) ran, omega (arith, ap waiting left))
    where
      never : HasFault w.db → ⊥
      never fault = let none_left = ap (any is_some) quiet in absurd cc

  -- Where marking is enabled, no step at the server fails, every waiting row can be converted and the
  -- endpoint answers each request with 204, `n` cycles return, and at most as many rows still wait as
  -- did before less `n` times `batch_size`; with a `batch_size` of 0 that says nothing of the rows. The
  -- rest is what `IsEngine` and `IsUp` ask of the libraries, the requests and the server's collation.
  pub cycles-drain :
      IsEngine e
      → IsUp e
      → (n : ℕ) (w : World S) → w.db.faults ≡ []
      → All (Ready e.driver e.tsql) w.db.rows
      → (w' : World S) × (cycles n w ≡ some w')
        × (waiting w'.db.rows ≤ waiting w.db.rows - n * e.sync.batch_size)
  cycles-drain lawful up n w quiet ready = cycles-take lawful (IsUp-TakesAll e up) n w quiet ready
