-- ===== src/Sync/SqlServerEngine/Refines.antt =====
-- A cycle of the SQL Server engine does what its specification says, on every branch.
use weighing_data_sync.Prelude.{◌≡◌, refl, subst, inl, inr, some, List, [], ◌∷◌}
use weighing_data_sync.Anyhow.{Error, Result, ok, err}
use weighing_data_sync.Source.SqlServer.{WeightRow, Database}
use weighing_data_sync.Source.SqlServer.Steps.{HasFault}
use weighing_data_sync.Source.SqlServer.Row.{SqlServerWeightRecord}
use weighing_data_sync.Source.SqlServer.Fetch.{fetch_pending}
use weighing_data_sync.Source.SqlServer.Fetch.Selected.{Selected, Records, no_rows}
use weighing_data_sync.Source.SqlServer.Fetch.Pending.{Fetches, fetch_pending-Fetches}
use weighing_data_sync.Sync.{SyncOutcome, no_data}
use weighing_data_sync.Sync.SqlServerEngine.{SqlServerSyncEngine, World, process, sync_once}
use weighing_data_sync.Sync.SqlServerEngine.Cycle.{
  IsEngine, Cycle, broken, refused, nothing_selected,
}
use weighing_data_sync.Sync.SqlServerEngine.Concluding.{Processed, process-Processed}

module _ {Body S : Type 0} (e : SqlServerSyncEngine Body S) (lawful : IsEngine e) where
  Records-nil : {selected : List WeightRow} → Records e.driver e.tsql selected [] → selected ≡ []
  Records-nil no_rows = refl

  taken-Processed :
      (w : World S) (db : Database)
      → db.rows ≡ w.db.rows
      → (HasFault db → HasFault w.db)
      → (selected : List WeightRow) → Selected e.sync.batch_size w.db.rows selected
      → (rs : List SqlServerWeightRecord) → Records e.driver e.tsql selected rs
      → Processed e lawful w.db (process e (ok rs) (record w { db = db }))
  unfolding process
  taken-Processed w db same script selected selects [] records = (
    ok no_data,
    record w { db = db },
    refl,
    (
      w.db.rows,
      same,
      nothing_selected (subst (Selected e.sync.batch_size w.db.rows) (Records-nil records) selects),
    ),
  )
  taken-Processed w db same script selected selects (r ∷ rs) records =
      process-Processed e lawful w.db (record w { db = db }) same script r rs
        (record {
          selected = selected;
          selects = selects;
          converted = records;
          some_ = λ h. absurd cc;
        })

  fetched-Processed :
      (w : World S) (fetched : Result Error (List SqlServerWeightRecord)) (db : Database)
      → Fetches e.driver e.tsql lawful.tsql e.sync.batch_size w.db (fetched, db)
      → Processed e lawful w.db (process e fetched (record w { db = db }))
  unfolding process
  fetched-Processed w fetched db f = elim f.outcome [
    | inl (rs, same, records) ↦
        rw same (taken-Processed w db f.rows f.script f.selected f.selects rs records)
    | inr (inl (x, same, why)) ↦
        rw (same, process)
          (
            err x,
            record w { db = db },
            refl,
            (w.db.rows, f.rows, refused x f.selected f.selects why),
          )
    | inr (inr (x, same, fault)) ↦
        rw (same, process) (err x, record w { db = db }, refl, (w.db.rows, f.rows, broken x fault))
  ]

  -- A cycle returns, and ends as specified: in one of six ways, with the rows that go with it.
  pub sync_once_follows :
      (w : World S)
      → (r : Result Error SyncOutcome) × (w' : World S) × (sync_once e w ≡ some (r, w'))
        × ((rows : List WeightRow) × (w'.db.rows ≡ rows) × Cycle e w.db r rows)
  unfolding sync_once
  sync_once_follows w =
      let out = fetch_pending e.driver e.tsql e.address e.sync.batch_size w.db in
      fetched-Processed w out.0 out.1
        (fetch_pending-Fetches e.driver e.tsql lawful.tsql e.address e.sync.batch_size w.db)
