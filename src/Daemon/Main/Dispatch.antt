-- ===== src/Daemon/Main/Dispatch.antt =====
-- What each command of the command line comes to, by the specification of that command.
use weighing_data_sync.Prelude.{◌≡◌, Bool, some, List, [], Text}
use weighing_data_sync.Anyhow.{Error, msg, Result, ok, err}
use weighing_data_sync.Ending.{Ending, returned}
use weighing_data_sync.Config.{AppConfig}
use weighing_data_sync.Windows.{windows, other_build}
use weighing_data_sync.Windows.Autostart.{unsupported}
use weighing_data_sync.Windows.Service.{no_installation, no_uninstallation}
use weighing_data_sync.Windows.Autostart.Documented.{IsRegistry}
use weighing_data_sync.Windows.Autostart.Laws.{Enables, Disables, Reads}
use weighing_data_sync.Windows.Service.Documented.{IsServiceManager}
use weighing_data_sync.Windows.Service.Laws.{Installs, Uninstalls}
use weighing_data_sync.Sync.{SyncOutcome}
use weighing_data_sync.Daemon.{Libraries, Machine, AppEngine, build_engine, sync_once}
use weighing_data_sync.Daemon.Command.{Command}
use weighing_data_sync.Daemon.Run.{Event}
use weighing_data_sync.Daemon.Serving.{Serving}
use weighing_data_sync.Daemon.Starts.{Starts}
use weighing_data_sync.Daemon.Main.{Platform, Reached}

-- The commands that fail without Windows, with what they say on another build.
pub data NeedsWindows : Command → Text → Type 0 where
  install : NeedsWindows Command.install_service no_installation
  uninstall : NeedsWindows Command.uninstall_service no_uninstallation
  enable : NeedsWindows Command.enable_autostart unsupported
  disable : NeedsWindows Command.disable_autostart unsupported

module _ {Body S : Type 0} (lib : Libraries Body S) where
  -- What `sync_now` comes to: the engine cannot be built, or one cycle is run and its error returned.
  pub data Syncing (path : Text) (m : Machine S)
      : Result Error (Unit {0}) × Machine S → Type 0 where
    unbuilt :
        {x : Error} {m' : Machine S}
        → build_engine lib path m ≡ (err x, m')
        → Syncing path m (err x, m')
    failed :
        {cfg : AppConfig} {engine : AppEngine Body S} {m_1 m' : Machine S} {x : Error}
        → build_engine lib path m ≡ (ok (cfg, engine), m_1)
        → sync_once engine m_1 ≡ some (err x, m')
        → Syncing path m (err x, m')
    done :
        {cfg : AppConfig} {engine : AppEngine Body S} {m_1 m' : Machine S} {outcome : SyncOutcome}
        → build_engine lib path m ≡ (ok (cfg, engine), m_1)
        → sync_once engine m_1 ≡ some (ok outcome, m')
        → Syncing path m (ok tt, m')

module _ {Body S W K M H : Type 0} (lib : Libraries Body S) (platform : Platform W K M H)
    (registered : IsRegistry platform.registry) (managed : IsServiceManager platform.services) where
  -- How far the program comes with a command and a path of a configuration: each command does what
  -- its own specification says, to the machine or to the system, and leaves the other as it was. On a
  -- build that is not for Windows, the commands for Windows do nothing and, but for the one that reads
  -- the status, fail.
  pub data Dispatches (path : Text) (m : Machine S) (w : W) : Command → Reached S W → Type 0 where
    runs :
        {r : Ending} {events : List Event} {m' : Machine S}
        → Starts lib path m (r, events, m')
        → Dispatches path m w Command.run
            (record { ending = r; events = events; machine = m'; system = w })
    serves :
        {r : Ending} {m' : Machine S}
        → Serving lib path m (r, m')
        → Dispatches path m w Command.serve
            (record { ending = r; events = []; machine = m'; system = w })
    syncs :
        {r : Result Error (Unit {0})} {m' : Machine S}
        → Syncing lib path m (r, m')
        → Dispatches path m w Command.sync_now
            (record { ending = returned r; events = []; machine = m'; system = w })
    installs :
        {r : Result Error (Unit {0})} {w' : W}
        → platform.build ≡ windows
        → Installs platform.services managed (platform.current_exe w) w (r, w')
        → Dispatches path m w Command.install_service
            (record { ending = returned r; events = []; machine = m; system = w' })
    uninstalls :
        {r : Result Error (Unit {0})} {w' : W}
        → platform.build ≡ windows
        → Uninstalls platform.services managed w (r, w')
        → Dispatches path m w Command.uninstall_service
            (record { ending = returned r; events = []; machine = m; system = w' })
    enables :
        {r : Result Error (Unit {0})} {w' : W}
        → platform.build ≡ windows
        → Enables platform.registry registered (platform.current_exe w) w (r, w')
        → Dispatches path m w Command.enable_autostart
            (record { ending = returned r; events = []; machine = m; system = w' })
    disables :
        {r : Result Error (Unit {0})} {w' : W}
        → platform.build ≡ windows
        → Disables platform.registry registered w (r, w')
        → Dispatches path m w Command.disable_autostart
            (record { ending = returned r; events = []; machine = m; system = w' })
    reads :
        {b : Bool}
        → platform.build ≡ windows
        → Reads platform.registry registered w (ok b)
        → Dispatches path m w Command.autostart_status
            (record { ending = returned (ok tt); events = []; machine = m; system = w })
    unread :
        {e : Error}
        → platform.build ≡ windows
        → Reads platform.registry registered w (err e)
        → Dispatches path m w Command.autostart_status
            (record { ending = returned (err e); events = []; machine = m; system = w })
    nothing_read :
        platform.build ≡ other_build
        → Dispatches path m w Command.autostart_status
            (record { ending = returned (ok tt); events = []; machine = m; system = w })
    not_windows :
        {command : Command} {text : Text}
        → platform.build ≡ other_build
        → NeedsWindows command text
        → Dispatches path m w command
            (record { ending = returned (err (msg text)); events = []; machine = m; system = w })
