-- ===== src/Windows/Autostart.antt =====
-- windows/autostart.rs: the value of the registry that starts the daemon when the user logs in.
pub mod Documented
pub mod Laws
pub mod Status
use weighing_data_sync.Prelude.{Bool, false, ◌++◌, Text, codes}
use weighing_data_sync.Anyhow.{Error, msg, context, Result, ok, err, is_ok}
use weighing_data_sync.Windows.{Build, windows, other_build, in_context}

-- An error whose kind is `NotFound`, or another one.
pub data IoError : Type 0 where
  not_found failed : Error → IoError

pub data KeyAccess : Type 0 where
  key_read key_set_value : KeyAccess

-- The calls of `winreg` on the keys of the current user; `W` is the state of the system, and `K` is an
-- open key.
pub record Registry (W K : Type 0) : Type 0 where
  pub create_subkey : Text → W → Result Error K × W
  pub open_subkey : KeyAccess → Text → W → Result Error K
  pub set_value : K → (name : Text) → Text → W → Result Error (Unit {0}) × W
  pub delete_value : K → (name : Text) → W → Result IoError (Unit {0}) × W
  pub get_value : K → (name : Text) → W → Result Error Text

abbrev pub run_value_name : Text
run_value_name = codes "WeighingDataSync"

abbrev pub run_key : Text
run_key = codes "Software\\Microsoft\\Windows\\CurrentVersion\\Run"

-- The command for an executable, whose path is quoted.
abbrev pub command : Text → Text
command exe_path = codes "\"" ++ (exe_path ++ codes "\" run")

abbrev pub unsupported : Text
unsupported = run_value_name ++ codes " autostart requires Windows target and the `windows` feature"

abbrev pub open_text : Text
open_text = codes "failed to open Windows Run registry key"

module _ {W K : Type 0} (registry : Registry W K) where
  -- What follows when the key is open.
  abbrev pub write_command : Result Error Text → K → W → Result Error (Unit {0}) × W
  write_command (err e) key w =
      (err (context (codes "failed to resolve current executable path") e), w)
  write_command (ok exe_path) key w =
      in_context (codes "failed to write Windows autostart registry value")
        (registry.set_value key run_value_name (command exe_path) w)

  abbrev pub created : Result Error Text → Result Error K × W → Result Error (Unit {0}) × W
  created current_exe (err e, w) = (err (context open_text e), w)
  created current_exe (ok key, w) = write_command current_exe key w

  unfoldable pub enable_autostart : Result Error Text → Build → W → Result Error (Unit {0}) × W
  enable_autostart current_exe other_build w = (err (msg unsupported), w)
  enable_autostart current_exe windows w = created current_exe (registry.create_subkey run_key w)

  -- A value that is not there needs no removal.
  abbrev pub deleted : Result IoError (Unit {0}) × W → Result Error (Unit {0}) × W
  deleted (ok _, w) = (ok tt, w)
  deleted (err (not_found e), w) = (ok tt, w)
  deleted (err (failed e), w) =
      (err (context (codes "failed to delete Windows autostart registry value") e), w)

  abbrev pub delete_opened : Result Error K → W → Result Error (Unit {0}) × W
  delete_opened (err e) w = (err (context open_text e), w)
  delete_opened (ok key) w = deleted (registry.delete_value key run_value_name w)

  unfoldable pub disable_autostart : Build → W → Result Error (Unit {0}) × W
  disable_autostart other_build w = (err (msg unsupported), w)
  disable_autostart windows w = delete_opened (registry.open_subkey key_set_value run_key w) w

  abbrev pub read_opened : Result Error K → W → Result Error Bool
  read_opened (err e) w = err (context open_text e)
  read_opened (ok key) w = ok (is_ok (registry.get_value key run_value_name w))

  unfoldable pub is_autostart_enabled : Build → W → Result Error Bool
  is_autostart_enabled other_build w = ok false
  is_autostart_enabled windows w = read_opened (registry.open_subkey key_read run_key w) w
