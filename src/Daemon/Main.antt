-- ===== src/Daemon/Main.antt =====
-- main.rs: `main`, which runs the command of the command line.
pub mod Dispatch
pub mod OnSystem
pub mod Keeps
pub mod Returns
pub mod History
use weighing_data_sync.Prelude.{Bool, Option, none, some, unwrap_or, List, []}
use weighing_data_sync.Anyhow.{Error, Result, ok, err}
use weighing_data_sync.Ending.{Ending, returned}
use weighing_data_sync.Windows.{Build}
use weighing_data_sync.Windows.Autostart as autostart
use weighing_data_sync.Windows.Autostart.{Registry}
use weighing_data_sync.Windows.Service as service
use weighing_data_sync.Windows.Service.{ServiceManager}
use weighing_data_sync.Daemon.{Libraries, Machine}
use weighing_data_sync.Daemon.Command.{Command, Cli}
use weighing_data_sync.Daemon.Run.{Event, Daemon, run_daemon, serve, sync_now}
use weighing_data_sync.Prelude.{Text}

-- What the functions for Windows take from the system; `W` is its state.
pub record Platform (W K M H : Type 0) : Type 0 where
  pub build : Build
  pub current_exe : W → Result Error Text
  pub registry : Registry W K
  pub services : ServiceManager W M H

-- How far a command comes: whether it is still under way or has returned, what it was seen to do until
-- then, the machine and the system.
pub record Reached (S W : Type 0) : Type 0 where
  pub ending : Ending
  pub events : List Event
  pub machine : Machine S
  pub system : W

module _ {Body S W K M H : Type 0} (lib : Libraries Body S) (platform : Platform W K M H) where
  abbrev pub by_daemon : W → Option (Daemon lib) → Option (Reached S W)
  by_daemon w none = none
  by_daemon w (some (r, events, m)) =
      some (record { ending = r; events = events; machine = m; system = w })

  abbrev pub by_sync : W → Option (Result Error (Unit {0}) × Machine S) → Option (Reached S W)
  by_sync w none = none
  by_sync w (some (r, m)) =
      some (record { ending = returned r; events = []; machine = m; system = w })

  abbrev pub by_server : W → Ending × Machine S → Option (Reached S W)
  by_server w (r, m) = some (record { ending = r; events = []; machine = m; system = w })

  abbrev pub by_system : Machine S → Result Error (Unit {0}) × W → Option (Reached S W)
  by_system m (r, w) = some (record { ending = returned r; events = []; machine = m; system = w })

  -- The status is only logged.
  abbrev pub status_read : Result Error Bool → Result Error (Unit {0})
  status_read (err e) = err e
  status_read (ok enabled) = ok tt

  unfoldable pub run_command : Command → Text → Machine S → W → Option (Reached S W)
  unfolding run_daemon serve sync_now service.install_service service.uninstall_service
      autostart.enable_autostart autostart.disable_autostart autostart.is_autostart_enabled
  run_command Command.run path m w = by_daemon w (run_daemon lib path m)
  run_command Command.serve path m w = by_server w (serve lib path m)
  run_command Command.sync_now path m w = by_sync w (sync_now lib path m)
  run_command Command.install_service path m w =
      by_system m
        (service.install_service platform.services (platform.current_exe w) platform.build w)
  run_command Command.uninstall_service path m w =
      by_system m (service.uninstall_service platform.services platform.build w)
  run_command Command.enable_autostart path m w =
      by_system m
        (autostart.enable_autostart platform.registry (platform.current_exe w) platform.build w)
  run_command Command.disable_autostart path m w =
      by_system m (autostart.disable_autostart platform.registry platform.build w)
  run_command Command.autostart_status path m w =
      by_system m
        (status_read (autostart.is_autostart_enabled platform.registry platform.build w), w)

  -- `none` means that the fuel of a retry loop ran out.
  unfoldable pub main : Cli → Machine S → W → Option (Reached S W)
  unfolding run_command
  main cli m w = run_command (unwrap_or cli.command Command.run) cli.config m w
