-- ===== src/Daemon/Main/OnSystem.antt =====
-- The commands for Windows come as far as their specifications say, on either build.
use weighing_data_sync.Prelude.{◌≡◌, Bool, [], Text}
use weighing_data_sync.Anyhow.{Error, Result, ok, err}
use weighing_data_sync.Daemon.{Libraries, Machine}
use weighing_data_sync.Daemon.Command.{Command}
use weighing_data_sync.Ending.{returned}
use weighing_data_sync.Windows.{Build, windows, other_build}
use weighing_data_sync.Windows.Autostart as autostart
use weighing_data_sync.Windows.Autostart.Documented.{IsRegistry}
use weighing_data_sync.Windows.Autostart.Laws.{Reads, autostart_lem}
use weighing_data_sync.Windows.Service as service
use weighing_data_sync.Windows.Service.Documented.{IsServiceManager}
use weighing_data_sync.Windows.Service.Laws.{service_lem}
use weighing_data_sync.Daemon.Main.Dispatch.{
  Dispatches, installs, uninstalls, enables, disables, reads, unread, nothing_read, not_windows,
  install, uninstall, enable, disable,
}
use weighing_data_sync.Daemon.Main.{Platform, status_read}

module _ {Body S W K M H : Type 0} (lib : Libraries Body S) (platform : Platform W K M H)
    (registered : IsRegistry platform.registry) (managed : IsServiceManager platform.services) where
  -- A command that works on the system comes as far as its specification says.
  abbrev pub BySystem : Command → Text → Machine S → W → Result Error (Unit {0}) × W → Type 0
  BySystem command path m w (r, w') =
      Dispatches lib platform registered managed path m w command
        (record { ending = returned r; events = []; machine = m; system = w' })

  pub install-BySystem :
      (path : Text) (m : Machine S) (w : W)
      → (b : Build) → platform.build ≡ b
      → BySystem Command.install_service path m w
          (service.install_service platform.services (platform.current_exe w) b w)
  unfolding service.install_service
  install-BySystem path m w windows build =
      installs build (service_lem platform.services managed (platform.current_exe w) w).0
  install-BySystem path m w other_build build = not_windows build install

  pub uninstall-BySystem :
      (path : Text) (m : Machine S) (w : W)
      → (b : Build) → platform.build ≡ b
      → BySystem Command.uninstall_service path m w
          (service.uninstall_service platform.services b w)
  unfolding service.uninstall_service
  uninstall-BySystem path m w windows build =
      uninstalls build (service_lem platform.services managed (platform.current_exe w) w).1
  uninstall-BySystem path m w other_build build = not_windows build uninstall

  pub enable-BySystem :
      (path : Text) (m : Machine S) (w : W)
      → (b : Build) → platform.build ≡ b
      → BySystem Command.enable_autostart path m w
          (autostart.enable_autostart platform.registry (platform.current_exe w) b w)
  unfolding autostart.enable_autostart
  enable-BySystem path m w windows build =
      enables build (autostart_lem platform.registry registered (platform.current_exe w) w).0
  enable-BySystem path m w other_build build = not_windows build enable

  pub disable-BySystem :
      (path : Text) (m : Machine S) (w : W)
      → (b : Build) → platform.build ≡ b
      → BySystem Command.disable_autostart path m w
          (autostart.disable_autostart platform.registry b w)
  unfolding autostart.disable_autostart
  disable-BySystem path m w windows build =
      disables build (autostart_lem platform.registry registered (platform.current_exe w) w).1
  disable-BySystem path m w other_build build = not_windows build disable

  pub status-BySystem :
      (path : Text) (m : Machine S) (w : W)
      → (b : Build) → platform.build ≡ b
      → BySystem Command.autostart_status path m w
          (status_read lib platform (autostart.is_autostart_enabled platform.registry b w), w)
  unfolding autostart.is_autostart_enabled
  status-BySystem path m w windows build =
      read_ (autostart.is_autostart_enabled platform.registry windows w)
        (autostart_lem platform.registry registered (platform.current_exe w) w).2
    where
      read_ :
          (out : Result Error Bool)
          → Reads platform.registry registered w out
          → BySystem Command.autostart_status path m w (status_read lib platform out, w)
      read_ (ok b) h = reads build h
      read_ (err e) h = unread build h
  status-BySystem path m w other_build build = nothing_read build
