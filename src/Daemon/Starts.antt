-- ===== src/Daemon/Starts.antt =====
-- What the daemon does when it starts.
use weighing_data_sync.Prelude.{
  ◌≡◌, refl, ◌∙◌, ap, inl, inr, Bool, true, false, Bool-cases, if◌then◌else◌, Option, some, List,
  [], ◌∷◌, ◌++◌, Text,
}
use weighing_data_sync.Anyhow.{Error, Result, ok, err}
use weighing_data_sync.Ending.{Ending, returned}
use weighing_data_sync.Config.{AppConfig}
use weighing_data_sync.Db.Connect.{rows_of}
use weighing_data_sync.Server.{new_state}
use weighing_data_sync.Daemon.{
  Libraries, Machine, AppEngine, local, sql_server, sync_once, build_engine,
}
use weighing_data_sync.Daemon.Run.{
  Event, startup_sync, Daemon, open_persist_pool, schedule_and_wait, sync_on_start, start_daemon,
  run_daemon, after_sync, with_server, with_event,
}
use weighing_data_sync.Daemon.Parts.{
  Serves, no_server, Syncs, no_sync, ran, Waits, open_persist_pool-Serves, schedule_and_wait-Waits,
}
use weighing_data_sync.Daemon.Scheduler.{WellFormed, sync_once_returns}
use weighing_data_sync.Daemon.Runnable.{
  IsLibraries, Cached, Runnable, build_engine-Runnable, opened-rows,
}

module _ {Body S : Type 0} (lib : Libraries Body S) where
  -- How the daemon runs.
  pub data Starts (path : Text) (m : Machine S) : Daemon lib → Type 0 where
    unbuilt :
        {x : Error} {m' : Machine S}
        → build_engine lib path m ≡ (err x, m')
        → Starts path m (returned (err x), [], m')
    started :
        {cfg : AppConfig} {engine : AppEngine Body S} {m_1 m_2 m_3 : Machine S}
        {serving syncing waiting : List Event} {r : Ending}
        → build_engine lib path m ≡ (ok (cfg, engine), m_1)
        → Serves lib cfg m_1 serving m_2
        → Syncs lib cfg engine m_2 syncing m_3
        → Waits lib cfg r waiting
        → Starts path m (r, serving ++ (syncing ++ waiting), m_3)

  -- The cycle at the start and what follows it.
  abbrev Went : AppConfig → AppEngine Body S → Machine S → Option (Daemon lib) → Type 0
  Went cfg engine m out =
      (r : Ending) × (syncing : List Event) × (waiting : List Event) × (m' : Machine S) × (out
        ≡ some (r, syncing ++ waiting, m'))
      × Syncs lib cfg engine m syncing m'
      × Waits lib cfg r waiting

  sync_on_start-Went :
      (cfg : AppConfig) (engine : AppEngine Body S) (m : Machine S)
      → WellFormed engine m
      → Went cfg engine m (sync_on_start lib cfg engine m)
  unfolding sync_on_start
  sync_on_start-Went cfg engine m runs = elim (Bool-cases cfg.sync.sync_on_start) [
    | inr off ↦
        let (r, waiting, starts, waits) = schedule_and_wait-Waits lib cfg m in
        (
          r,
          [],
          waiting,
          m,
          chosen m cfg.sync.sync_on_start false off ∙ ap some starts,
          no_sync off,
          waits,
        )
    | inl on ↦
        let (result, m', came_back, _) = sync_once_returns engine m runs in
        let (r, waiting, starts, waits) = schedule_and_wait-Waits lib cfg m' in
        (
          r,
          startup_sync result ∷ [],
          waiting,
          m',
          chosen m cfg.sync.sync_on_start true on
              ∙ ap (after_sync lib cfg) came_back
              ∙ ap (λ d. some (with_event lib (startup_sync result) d)) starts,
          ran on came_back,
          waits,
        )
  ]
    where
      chosen :
          (m : Machine S) (b c : Bool)
          → b ≡ c
          → (if b
              then after_sync lib cfg (sync_once engine m)
              else some (schedule_and_wait lib cfg m))
            ≡ (if c
                then after_sync lib cfg (sync_once engine m)
                else some (schedule_and_wait lib cfg m))
      chosen m b c same = rw same

  started-Starts :
      (path : Text) (m m_1 : Machine S) (cfg : AppConfig) (engine : AppEngine Body S)
      → build_engine lib path m ≡ (ok (cfg, engine), m_1)
      → WellFormed engine m_1
      → (d : Daemon lib) × (start_daemon lib cfg engine m_1 ≡ some d) × Starts path m d
  unfolding start_daemon
  started-Starts path m m_1 cfg engine built runs = elim (Bool-cases cfg.server.enabled) [
    | inr off ↦
        let (r, syncing, waiting, m_3, went, syncs, waits) =
          sync_on_start-Went cfg engine m_1 runs in
        (_, chosen cfg.server.enabled false off ∙ went, started built (no_server off) syncs waits)
    | inl on ↦
        let (pool, m_2) = open_persist_pool lib cfg m_1 in
        let still = still_WellFormed engine m_1 m_2 (opened-rows lib cfg m_1) runs in
        let (r, syncing, waiting, m_3, went, syncs, waits) =
          sync_on_start-Went cfg engine m_2 still in
        (
          _,
          chosen cfg.server.enabled true on ∙ ap (with_server lib (new_state cfg.server pool)) went,
          started built (open_persist_pool-Serves lib cfg m_1 on) syncs waits,
        )
  ]
    where
      chosen :
          (b c : Bool)
          → b ≡ c
          → (if b
              then with_server lib
                  (new_state cfg.server (open_persist_pool lib cfg m_1).0)
                  (sync_on_start lib cfg engine (open_persist_pool lib cfg m_1).1)
              else sync_on_start lib cfg engine m_1)
            ≡ (if c
                then with_server lib
                    (new_state cfg.server (open_persist_pool lib cfg m_1).0)
                    (sync_on_start lib cfg engine (open_persist_pool lib cfg m_1).1)
                else sync_on_start lib cfg engine m_1)
      chosen b c same = rw same

      still_WellFormed :
          (engine : AppEngine Body S) (m_1 m_2 : Machine S)
          → rows_of m_2.host.tables ≡ rows_of m_1.host.tables
          → WellFormed engine m_1
          → WellFormed engine m_2
      still_WellFormed (local e) m_1 m_2 same (lawful, (rs, held)) =
          (lawful, (rs, record { rows = same ∙ held.rows; records = held.records }))
      still_WellFormed (sql_server e) m_1 m_2 same lawful = lawful

  -- The daemon runs whenever its engine can be built: if the server is enabled it is spawned first,
  -- with its key and, if it is to persist and the cache can be opened, with the cache; if it is asked
  -- for a cycle is run, which always returns; then the scheduler is started, if the build has it, and
  -- the daemon stays until the wait for the signal ends. Neither a cache that cannot be opened for the
  -- server nor a cycle that fails stops it: its error is that of the engine, of the scheduler or of the
  -- signal. The libraries must behave as `IsLibraries` says, and what the
  -- cache holds at the start was written for records.
  pub run_daemon-Starts :
      IsLibraries lib
      → (path : Text) (m : Machine S) → Cached lib m.host
      → (d : Daemon lib) × (run_daemon lib path m ≡ some d) × Starts path m d
  unfolding run_daemon
  run_daemon-Starts lawful path m cached =
      by_engine (build_engine lib path m) refl (build_engine-Runnable lib lawful path m cached)
    where
      by_engine :
          (out : Result Error (AppConfig × AppEngine Body S) × Machine S)
          → build_engine lib path m ≡ out
          → Runnable lib out
          → (d : Daemon lib) × (run_daemon lib path m ≡ some d) × Starts path m d
      by_engine (err x, m') same h = (_, rw (run_daemon, same), unbuilt same)
      by_engine (ok (cfg, engine), m_1) same runs =
          let (d, went, starts) = started-Starts path m m_1 cfg engine same runs in
          (d, rw (run_daemon, same) went, starts)
