-- ===== src/Daemon/Main/Returns.antt =====
-- What every command leaves.
use weighing_data_sync.Prelude.{◌≡◌, refl, ap, inl, inr, Bool-cases, Option, some, Text, unwrap_or}
use weighing_data_sync.Anyhow.{Error, Result, ok, err, Result-cases}
use weighing_data_sync.Config.{AppConfig}
use weighing_data_sync.Db.{Db}
use weighing_data_sync.Db.Connect.{Host, connect}
use weighing_data_sync.Sync.{SyncOutcome}
use weighing_data_sync.Daemon.{Libraries, Machine, AppEngine, build_engine, load, sync_once}
use weighing_data_sync.Daemon.Command.{Command, Cli}
use weighing_data_sync.Daemon.Run.{serve, sync_now, open_persist_pool, opened, synced}
use weighing_data_sync.Daemon.Runnable.{
  IsLibraries, Cached, connect-Cached, Runnable, build_engine-Runnable,
}
use weighing_data_sync.Daemon.Starts.{run_daemon-Starts}
use weighing_data_sync.Daemon.Serving.{serve-Serving}
use weighing_data_sync.Windows.Autostart.Documented.{IsRegistry}
use weighing_data_sync.Windows.Service.Documented.{IsServiceManager}
use weighing_data_sync.Daemon.Main.OnSystem.{
  BySystem, install-BySystem, uninstall-BySystem, enable-BySystem, disable-BySystem,
  status-BySystem,
}
use weighing_data_sync.Daemon.Main.Dispatch.{
  Syncing, unbuilt, failed, done, Dispatches, runs, serves, syncs,
}
use weighing_data_sync.Daemon.Main.{
  Platform, Reached, by_daemon, by_sync, by_system, run_command, main,
}
use weighing_data_sync.Daemon.Main.Keeps.{
  OfLibrary, build_engine-Cached, sync_once-Cached, Starts-Cached,
}

module _ {Body S : Type 0} (lib : Libraries Body S) where
  open_persist_pool-Cached :
      (cfg : AppConfig) (m : Machine S)
      → Cached lib m.host
      → Cached lib (open_persist_pool lib cfg m).1.host
  unfolding open_persist_pool
  open_persist_pool-Cached cfg m cached = elim (Bool-cases cfg.server.persist) [
    | inr off ↦ rw (open_persist_pool, off) cached
    | inl on ↦
        rw (open_persist_pool, on)
          (kept (connect lib.parent lib.backend cfg.database m.host)
            (connect-Cached lib cfg.database m.host cached))
  ]
    where
      kept :
          (out : Result Error Db × Host) → Cached lib out.1 → Cached lib (opened lib m out).1.host
      kept (ok db, h) held = held
      kept (err x, h) held = held

  serve-Cached :
      (path : Text) (m : Machine S) → Cached lib m.host → Cached lib (serve lib path m).1.host
  unfolding serve
  serve-Cached path m cached = elim (Result-cases (load (lib.config path))) [
    | inr (x, unloaded) ↦ rw (serve, unloaded) cached
    | inl (cfg, loads) ↦ rw (serve, loads) (open_persist_pool-Cached cfg m cached)
  ]

  -- `sync_now` returns and keeps the cache.
  sync_now-Cached :
      IsLibraries lib
      → (path : Text) (m : Machine S) → Cached lib m.host
      → (r : Result Error (Unit {0})) × (m' : Machine S) × (sync_now lib path m ≡ some (r, m'))
        × Cached lib m'.host
        × Syncing lib path m (r, m')
  unfolding sync_now
  sync_now-Cached lawful path m cached =
      by_engine (build_engine lib path m) refl (build_engine-Runnable lib lawful path m cached)
        (build_engine-Cached lib path m cached)
    where
      after :
          (cfg : AppConfig) (engine : AppEngine Body S) (m_1 : Machine S)
          (r : Result Error SyncOutcome) (m' : Machine S)
          → build_engine lib path m ≡ (ok (cfg, engine), m_1)
          → sync_once engine m_1 ≡ some (r, m')
          → Cached lib m'.host
          → (r' : Result Error (Unit {0})) × (m'' : Machine S) × (synced lib (sync_once engine m_1)
              ≡ some (r', m''))
            × Cached lib m''.host
            × Syncing lib path m (r', m'')
      after cfg engine m_1 (ok o) m' built went kept =
          (ok tt, m', ap (synced lib) went, kept, done built went)
      after cfg engine m_1 (err x) m' built went kept =
          (err x, m', ap (synced lib) went, kept, failed built went)

      by_engine :
          (out : Result Error (AppConfig × AppEngine Body S) × Machine S)
          → build_engine lib path m ≡ out
          → Runnable lib out
          → OfLibrary lib out.0 × Cached lib out.1.host
          → (r : Result Error (Unit {0})) × (m' : Machine S) × (sync_now lib path m ≡ some (r, m'))
            × Cached lib m'.host
            × Syncing lib path m (r, m')
      by_engine (err x, m') same h (_, kept) = (err x, m', rw (sync_now, same), kept, unbuilt same)
      by_engine (ok (cfg, engine), m_1) same well_formed (formats, kept) =
          let (r, m', went, kept_) = sync_once-Cached lib cfg engine m_1 formats well_formed kept in
          rw (sync_now, same) (after cfg engine m_1 r m' same went kept_)

module _ {Body S W K M H : Type 0} (lib : Libraries Body S) (platform : Platform W K M H)
    (registered : IsRegistry platform.registry) (managed : IsServiceManager platform.services) where
  -- A command comes as far as its specification says, and its cache is well kept.
  abbrev pub Returns : Command → Text → Machine S → W → Option (Reached S W) → Type 0
  Returns command path m w result =
      (out : Reached S W) × (result ≡ some out)
      × Cached lib out.machine.host
      × Dispatches lib platform registered managed path m w command out

  by_system-Returns :
      (command : Command) (path : Text) (m : Machine S) (w : W) (out : Result Error (Unit {0}) × W)
      → Cached lib m.host
      → BySystem lib platform registered managed command path m w out
      → Returns command path m w (by_system lib platform m out)
  by_system-Returns command path m w (r, w') cached dispatches = (_, refl, cached, dispatches)

module _ {Body S W K M H : Type 0} (lib : Libraries Body S) (platform : Platform W K M H)
    (lawful : IsLibraries lib) (registered : IsRegistry platform.registry)
    (managed : IsServiceManager platform.services) where
  run_command-Returns :
      (command : Command) (path : Text) (m : Machine S) (w : W)
      → Cached lib m.host
      → Returns lib platform registered managed command path m w
          (run_command lib platform command path m w)
  unfolding run_command
  run_command-Returns Command.run path m w cached =
      let ((r, events, m'), went, starts) = run_daemon-Starts lib lawful path m cached in
      (
        _,
        ap (by_daemon lib platform w) went,
        Starts-Cached lib lawful path m (r, events, m') cached starts,
        runs starts,
      )
  run_command-Returns Command.serve path m w cached =
      (_, refl, serve-Cached lib path m cached, serves (serve-Serving lib path m))
  run_command-Returns Command.sync_now path m w cached =
      let (r, m', went, kept, syncing) = sync_now-Cached lib lawful path m cached in
      (_, ap (by_sync lib platform w) went, kept, syncs syncing)
  run_command-Returns Command.install_service path m w cached =
      by_system-Returns lib platform registered managed Command.install_service path m w _ cached
        (install-BySystem lib platform registered managed path m w platform.build refl)
  run_command-Returns Command.uninstall_service path m w cached =
      by_system-Returns lib platform registered managed Command.uninstall_service path m w _ cached
        (uninstall-BySystem lib platform registered managed path m w platform.build refl)
  run_command-Returns Command.enable_autostart path m w cached =
      by_system-Returns lib platform registered managed Command.enable_autostart path m w _ cached
        (enable-BySystem lib platform registered managed path m w platform.build refl)
  run_command-Returns Command.disable_autostart path m w cached =
      by_system-Returns lib platform registered managed Command.disable_autostart path m w _ cached
        (disable-BySystem lib platform registered managed path m w platform.build refl)
  run_command-Returns Command.autostart_status path m w cached =
      by_system-Returns lib platform registered managed Command.autostart_status path m w _ cached
        (status-BySystem lib platform registered managed path m w platform.build refl)

  pub main-Returns :
      (cli : Cli) (m : Machine S) (w : W)
      → Cached lib m.host
      → Returns lib platform registered managed
          (unwrap_or cli.command Command.run)
          cli.config
          m
          w
          (main lib platform cli m w)
  unfolding main
  main-Returns cli m w cached =
      run_command-Returns (unwrap_or cli.command Command.run) cli.config m w cached
