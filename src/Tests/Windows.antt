-- ===== src/Tests/Windows.antt =====
-- The functions for Windows and the whole program on a system.
use weighing_data_sync.Prelude.{◌≡◌, refl, none, some, Text, codes, text_eq}
use weighing_data_sync.Anyhow.{Error, Result, ok}
use weighing_data_sync.Windows.{windows}
use weighing_data_sync.Windows.Autostart.{enable_autostart, run_key, run_value_name}
use weighing_data_sync.Windows.Service.{install_service}
use weighing_data_sync.Daemon.Command.{Command, Cli}
use weighing_data_sync.Daemon.Main.{Platform}
use weighing_data_sync.Daemon.Main.Returns.{Returns}
use weighing_data_sync.Daemon.Serving.{Serving}
use weighing_data_sync.Tests.System.{System, registry, services}

abbrev exe : Result Error Text
exe = ok (codes "C:\\wds.exe")

abbrev system : System
system = record { strings = λ p n. none; entries = λ n. none }

-- The command that is written quotes the path.
command_tests :
    (enable_autostart registry exe windows system).1.strings run_key run_value_name
    ≡ some (codes "\"C:\\wds.exe\" run")
unfolding enable_autostart text_eq
command_tests = refl

abbrev platform : Platform System Text (Unit {0}) Text
platform = record {
  build = windows;
  current_exe = λ w. exe;
  registry = registry;
  services = services;
}

-- The service is installed by a first call.
abbrev install : Cli
install = record { config = codes "c.toml"; command = some Command.install_service }
