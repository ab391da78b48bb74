-- ===== src/Windows/Service.antt =====
-- windows/service.rs: how the daemon is registered as a service of Windows.
pub mod Documented
pub mod Laws
use weighing_data_sync.Prelude.{Option, none, List, [], ◌∷◌, ◌++◌, Text, codes}
use weighing_data_sync.Anyhow.{Error, msg, context, Result, ok, err}
use weighing_data_sync.Windows.{Build, windows, other_build, in_context}

pub data ManagerAccess : Type 0 where
  create_service_access connect_access : ManagerAccess

pub data ServiceAccess : Type 0 where
  change_config_access delete_access : ServiceAccess

-- Of the library's types and modes only those that the program asks for.
pub data ServiceType : Type 0 where
  own_process : ServiceType

pub data ServiceStartType : Type 0 where
  auto_start : ServiceStartType

pub data ServiceErrorControl : Type 0 where
  normal : ServiceErrorControl

pub record ServiceInfo : Type 0 where
  pub name : Text
  pub display_name : Text
  pub service_type : ServiceType
  pub start_type : ServiceStartType
  pub error_control : ServiceErrorControl
  pub executable_path : Text
  pub launch_arguments : List Text
  pub dependencies : List Text
  pub account_name : Option Text
  pub account_password : Option Text

-- The calls of `windows_service`; `W` is the state of the system, `M` is an open service manager, and
-- `H` is an open service.
pub record ServiceManager (W M H : Type 0) : Type 0 where
  pub local_computer : ManagerAccess → W → Result Error M
  pub create_service : M → ServiceInfo → ServiceAccess → W → Result Error H × W
  pub set_description : H → Text → W → Result Error (Unit {0}) × W
  pub open_service : M → Text → ServiceAccess → W → Result Error H
  pub delete : H → W → Result Error (Unit {0}) × W

abbrev pub service_name : Text
service_name = codes "WeighingDataSync"

abbrev pub service_display_name : Text
service_display_name = codes "Intelligent Weighing Data Sync"

abbrev pub description : Text
description = codes "Reliable SQLite-backed weighing data synchronization daemon"

abbrev pub manager_text : Text
manager_text = codes "failed to open Windows service manager"

abbrev pub no_installation : Text
no_installation =
    service_name ++ codes " service installation requires Windows target and the `windows` feature"

abbrev pub no_uninstallation : Text
no_uninstallation =
    service_name
    ++ codes " service uninstallation requires Windows target and the `windows` feature"

-- The service that is registered for an executable.
unfoldable pub service_info : Text → ServiceInfo
service_info exe_path = record {
  name = service_name;
  display_name = service_display_name;
  service_type = own_process;
  start_type = auto_start;
  error_control = normal;
  executable_path = exe_path;
  launch_arguments = codes "run" ∷ [];
  dependencies = [];
  account_name = none;
  account_password = none;
}

module _ {W M H : Type 0} (services : ServiceManager W M H) where
  abbrev pub describe : Result Error H × W → Result Error (Unit {0}) × W
  describe (err e, w) = (err (context (codes "failed to create Windows service") e), w)
  describe (ok service, w) =
      in_context (codes "failed to set Windows service description")
        (services.set_description service description w)

  abbrev pub create : Result Error Text → M → W → Result Error (Unit {0}) × W
  create (err e) manager w = (err (context (codes "failed to resolve executable path") e), w)
  create (ok exe_path) manager w =
      describe (services.create_service manager (service_info exe_path) change_config_access w)

  abbrev pub install_with : Result Error Text → Result Error M → W → Result Error (Unit {0}) × W
  install_with current_exe (err e) w = (err (context manager_text e), w)
  install_with current_exe (ok manager) w = create current_exe manager w

  unfoldable pub install_service : Result Error Text → Build → W → Result Error (Unit {0}) × W
  unfolding service_info
  install_service current_exe other_build w = (err (msg no_installation), w)
  install_service current_exe windows w =
      install_with current_exe (services.local_computer create_service_access w) w

  abbrev pub delete_with : Result Error H → W → Result Error (Unit {0}) × W
  delete_with (err e) w = (err (context (codes "failed to open Windows service") e), w)
  delete_with (ok service) w =
      in_context (codes "failed to delete Windows service") (services.delete service w)

  abbrev pub uninstall_with : Result Error M → W → Result Error (Unit {0}) × W
  uninstall_with (err e) w = (err (context manager_text e), w)
  uninstall_with (ok manager) w =
      delete_with (services.open_service manager service_name delete_access w) w

  unfoldable pub uninstall_service : Build → W → Result Error (Unit {0}) × W
  uninstall_service other_build w = (err (msg no_uninstallation), w)
  uninstall_service windows w = uninstall_with (services.local_computer connect_access w) w
