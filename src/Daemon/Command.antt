-- ===== src/Daemon/Command.antt =====
-- main.rs: the command line, as far as clap has read it.
use weighing_data_sync.Prelude.{Option, Text}

pub data Command : Type 0 where
  run serve sync_now install_service uninstall_service : Command
  enable_autostart disable_autostart autostart_status : Command

-- `config` has its value from the option, the environment or the default.
pub record Cli : Type 0 where
  pub config : Text
  pub command : Option Command
