-- ===== src/Daemon/Run.antt =====
-- main.rs: what the daemon does when it starts, and a cycle by hand.
use weighing_data_sync.Prelude.{if◌then◌else◌, Option, none, some, List, [], ◌∷◌, ◌++◌, Text, codes}
use weighing_data_sync.Anyhow.{Error, Result, ok, err, context, ◌>>◌}
use weighing_data_sync.Ending.{Ending, returned, ending_context}
use weighing_data_sync.Config.{AppConfig}
use weighing_data_sync.Db.{Db}
use weighing_data_sync.Db.Connect.{Host, connect}
use weighing_data_sync.Server.{AppState, new_state}
use weighing_data_sync.Server.Start.{run_http_server}
use weighing_data_sync.Sync.{SyncOutcome}
use weighing_data_sync.Daemon.{Libraries, Machine, AppEngine, sync_once, load, build_engine}

-- What `run_daemon` is seen to do: the server is spawned with its state, a cycle is run at the
-- start, the scheduler is started.
pub data Event : Type 0 where
  server_spawned : AppState → Event
  startup_sync : Result Error SyncOutcome → Event
  scheduler_started : (cron : Text) → Event

module _ {Body S : Type 0} (lib : Libraries Body S) where
  abbrev pub opened : Machine S → Result Error Db × Host → Option Db × Machine S
  opened m (ok db, h) = (some db, record m { host = h })
  opened m (err e, h) = (none, record m { host = h })

  unfoldable pub open_persist_pool : AppConfig → Machine S → Option Db × Machine S
  unfolding connect
  open_persist_pool cfg m =
      if cfg.server.persist
      then opened m (connect lib.parent lib.backend cfg.database m.host)
      else (none, m)

  abbrev pub Daemon : Type 0
  Daemon = Ending × List Event × Machine S

  abbrev pub with_event : Event → Daemon → Daemon
  with_event x (r, events, m) = (r, x ∷ events, m)

  unfoldable pub start_scheduler : AppConfig → Result Error (Unit {0})
  start_scheduler cfg =
      lib.scheduler.new_scheduler
      >> lib.scheduler.new_async cfg.sync.cron
      >> lib.scheduler.add
      >> lib.scheduler.start

  -- It is under way until the signal comes.
  abbrev pub wait : Ending
  wait = ending_context (codes "failed to wait for Ctrl+C") lib.ctrl_c

  abbrev pub after_start : AppConfig → Machine S → Result Error (Unit {0}) → Daemon
  after_start cfg m (err e) = (returned (err e), [], m)
  after_start cfg m (ok _) = (wait, scheduler_started cfg.sync.cron ∷ [], m)

  -- The scheduler of a build with the cron feature, and the wait for the signal.
  unfoldable pub schedule_and_wait : AppConfig → Machine S → Daemon
  unfolding start_scheduler
  schedule_and_wait cfg m =
      if lib.cron then after_start cfg m (start_scheduler cfg) else (wait, [], m)

  abbrev pub after_sync : AppConfig → Option (Result Error SyncOutcome × Machine S) → Option Daemon
  after_sync cfg none = none
  after_sync cfg (some (r, m)) = some (with_event (startup_sync r) (schedule_and_wait cfg m))

  -- A cycle that fails at the start is left to the scheduler.
  unfoldable pub sync_on_start : AppConfig → AppEngine Body S → Machine S → Option Daemon
  unfolding schedule_and_wait sync_once
  sync_on_start cfg engine m =
      if cfg.sync.sync_on_start
      then after_sync cfg (sync_once engine m)
      else some (schedule_and_wait cfg m)

  abbrev pub with_server : AppState → Option Daemon → Option Daemon
  with_server state none = none
  with_server state (some d) = some (with_event (server_spawned state) d)

  unfoldable pub start_daemon : AppConfig → AppEngine Body S → Machine S → Option Daemon
  unfolding sync_on_start open_persist_pool new_state
  start_daemon cfg engine m =
      if cfg.server.enabled
      then with_server (new_state cfg.server (open_persist_pool cfg m).0)
          (sync_on_start cfg engine (open_persist_pool cfg m).1)
      else sync_on_start cfg engine m

  abbrev pub with_engine : Result Error (AppConfig × AppEngine Body S) × Machine S → Option Daemon
  with_engine (err e, m) = some (returned (err e), [], m)
  with_engine (ok (cfg, engine), m) = start_daemon cfg engine m

  -- `none` means that the fuel of a retry loop ran out.
  unfoldable pub run_daemon : Text → Machine S → Option Daemon
  unfolding build_engine start_daemon
  run_daemon path m = with_engine (build_engine lib path m)

  -- `sync_now`: the result of a cycle is only logged.
  abbrev pub synced :
      Option (Result Error SyncOutcome × Machine S) → Option (Result Error (Unit {0}) × Machine S)
  synced none = none
  synced (some (ok _, m)) = some (ok tt, m)
  synced (some (err e, m)) = some (err e, m)

  abbrev pub sync_with :
      Result Error (AppConfig × AppEngine Body S) × Machine S
      → Option (Result Error (Unit {0}) × Machine S)
  sync_with (err e, m) = some (err e, m)
  sync_with (ok (cfg, engine), m) = synced (sync_once engine m)

  unfoldable pub sync_now : Text → Machine S → Option (Result Error (Unit {0}) × Machine S)
  unfolding build_engine
  sync_now path m = sync_with (build_engine lib path m)

  abbrev pub served : AppConfig → Option Db × Machine S → Ending × Machine S
  served cfg (pool, m) = (run_http_server lib.network cfg.server pool, m)

  unfoldable pub serve : Text → Machine S → Ending × Machine S
  unfolding load open_persist_pool
  serve path m = elim (load (lib.config path)) [
    | err e ↦ (returned (err (context (codes "failed to load config from " ++ path) e)), m)
    | ok cfg ↦ served cfg (open_persist_pool cfg m)
  ]
