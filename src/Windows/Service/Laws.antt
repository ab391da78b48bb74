-- ===== src/Windows/Service/Laws.antt =====
-- The service as an entry of the service manager's list.
use weighing_data_sync.Prelude.{
  ◌≡◌, refl, ◌∙◌, ap, inl, inr, Bool-cases, if◌then◌else◌, Option, none, some, [], ◌∷◌, Text, codes,
}
use weighing_data_sync.Anyhow.{Error, context, Result, ok, err, Result-cases}
use weighing_data_sync.Windows.{windows}
use weighing_data_sync.Windows.Service.{
  change_config_access, delete_access, create_service_access, connect_access, ServiceInfo,
  ServiceManager, auto_start, service_name, description, manager_text, service_info, describe,
  create, install_service, uninstall_service, delete_with,
}
use weighing_data_sync.Windows.Service.Documented.{Entry, IsServiceManager}

module _ {W M H : Type 0} (services : ServiceManager W M H)
    (lawful : IsServiceManager services) where
  -- The list of services is as before.
  abbrev pub Unchanged : W → W → Type 0
  Unchanged w w' = (n : Text) → lawful.entry w' n ≡ lawful.entry w n

  -- The program has the given entry or none, and every other service stands as before.
  abbrev pub Registered : Option Entry → W → W → Type 0
  Registered v w w' =
      (n : Text) → lawful.entry w' n ≡ (if lawful.same n service_name then v else lawful.entry w n)

  -- The service starts the executable with the system and with the command `run`.
  pub record Launches (exe_path : Text) (info : ServiceInfo) : Type 0 where
    pub name : info.name ≡ codes "WeighingDataSync"
    pub executable : info.executable_path ≡ exe_path
    pub starts : info.start_type ≡ auto_start
    pub arguments : info.launch_arguments ≡ codes "run" ∷ []

  service_info-Launches : (exe_path : Text) → Launches exe_path (service_info exe_path)
  unfolding service_info
  service_info-Launches exe_path = record {
    name = refl;
    executable = refl;
    starts = refl;
    arguments = refl;
  }

  -- What `install_service` comes to.
  pub data Installs (current_exe : Result Error Text) (w : W)
      : Result Error (Unit {0}) × W → Type 0 where
    installed :
        {exe_path : Text} {w' : W} (info : ServiceInfo)
        → current_exe ≡ ok exe_path
        → Launches exe_path info
        → lawful.entry w service_name ≡ none
        → Registered (some (info, some description)) w w'
        → Installs current_exe w (ok tt, w')
    undescribed :
        {exe_path : Text} {e : Error} {w' : W} (info : ServiceInfo)
        → current_exe ≡ ok exe_path
        → Launches exe_path info
        → lawful.entry w service_name ≡ none
        → Registered (some (info, none)) w w'
        → Installs current_exe w
            (err (context (codes "failed to set Windows service description") e), w')
    not_created :
        {e : Error} {w' : W}
        → Unchanged w w'
        → Installs current_exe w (err (context (codes "failed to create Windows service") e), w')
    no_exe :
        {e : Error}
        → current_exe ≡ err e
        → Installs current_exe w (err (context (codes "failed to resolve executable path") e), w)
    no_manager : {e : Error} → Installs current_exe w (err (context manager_text e), w)

  -- What `uninstall_service` comes to.
  pub data Uninstalls (w : W) : Result Error (Unit {0}) × W → Type 0 where
    uninstalled : {w' : W} → Registered none w w' → Uninstalls w (ok tt, w')
    not_deleted :
        {e : Error} {w' : W}
        → Unchanged w w'
        → Uninstalls w (err (context (codes "failed to delete Windows service") e), w')
    not_opened :
        {e : Error} → Uninstalls w (err (context (codes "failed to open Windows service") e), w)
    manager_closed : {e : Error} → Uninstalls w (err (context manager_text e), w)

  -- An entry that is changed once more.
  Registered-again :
      (u v : Option Entry) (w w' w'' : W)
      → Registered u w w'
      → Registered v w' w''
      → Registered v w w''
  Registered-again u v w w' w'' first second n = elim (Bool-cases (lawful.same n service_name)) [
    | inl named ↦ second n ∙ rw named
    | inr other ↦ rw other at (second n) ∙ rw other at (first n) ∙ rw other
  ]

  described-Installs :
      (exe : Result Error Text) (exe_path : Text) (w w' w'' : W) (h : H)
      (r : Result Error (Unit {0}))
      → exe ≡ ok exe_path
      → lawful.name_of h ≡ service_name
      → lawful.entry w service_name ≡ none
      → Registered (some (service_info exe_path, none)) w w'
      → services.set_description h description w' ≡ (r, w'')
      → Installs exe w (describe services (ok h, w'))
  described-Installs exe exe_path w w' w'' h (ok tt) found named free entered sets = rw sets (
      installed (service_info exe_path) found (service_info-Launches exe_path) free (
        Registered-again (some (service_info exe_path, none))
          (some (service_info exe_path, some description)) w w' w'' entered
          (λ n.
            lawful.describes h description w' w'' (service_info exe_path) none sets
              (ap (lawful.entry w') named
                ∙ entered service_name
                ∙ rw (lawful.reflexive service_name))
              n
            ∙ rw named)))
  described-Installs exe exe_path w w' w'' h (err e) found named free entered fails = rw fails (
      undescribed (service_info exe_path) found (service_info-Launches exe_path) free
        (λ n. lawful.describe_fails h description w' w'' e fails n ∙ entered n))

  created-Installs :
      (exe : Result Error Text) (exe_path : Text) (m : M) (w w' : W) (r : Result Error H)
      → exe ≡ ok exe_path
      → services.create_service m (service_info exe_path) change_config_access w ≡ (r, w')
      → Installs exe w (describe services (r, w'))
  unfolding service_info
  created-Installs exe exe_path m w w' (err e) found fails =
      not_created (lawful.create_fails m (service_info exe_path) change_config_access w w' e fails)
  created-Installs exe exe_path m w w' (ok h) found creates =
      let (named, free, entered) =
        lawful.creates m (service_info exe_path) change_config_access w w' h creates in
      described-Installs exe exe_path w w' _ h _ found named free entered refl

  create-Installs :
      (exe : Result Error Text) (m : M) (w : W) → Installs exe w (create services exe m w)
  create-Installs (err e) m w = no_exe refl
  create-Installs (ok exe_path) m w = created-Installs (ok exe_path) exe_path m w _ _ refl refl

  install_service-Installs :
      (exe : Result Error Text) (w : W) → Installs exe w (install_service services exe windows w)
  unfolding install_service
  install_service-Installs exe w =
      elim (Result-cases (services.local_computer create_service_access w)) [
        | inr (e, refuses) ↦ rw (install_service, refuses) no_manager
        | inl (m, opened) ↦ rw (install_service, opened) (create-Installs exe m w)
      ]

  deleted-Uninstalls :
      (h : H) (w w' : W) (r : Result Error (Unit {0}))
      → lawful.name_of h ≡ service_name
      → services.delete h w ≡ (r, w')
      → Uninstalls w (delete_with services (ok h) w)
  deleted-Uninstalls h w w' (ok tt) named deletes =
      rw deletes (uninstalled (λ n. lawful.deletes h w w' deletes n ∙ rw named))
  deleted-Uninstalls h w w' (err e) named fails =
      rw fails (not_deleted (lawful.delete_fails h w w' e fails))

  uninstall_service-Uninstalls : (w : W) → Uninstalls w (uninstall_service services windows w)
  unfolding uninstall_service
  uninstall_service-Uninstalls w = elim (Result-cases (services.local_computer connect_access w)) [
    | inr (e, refuses) ↦ rw (uninstall_service, refuses) manager_closed
    | inl (m, opened) ↦ elim (Result-cases (services.open_service m service_name delete_access w)) [
      | inr (e, missing) ↦ rw (uninstall_service, opened, missing) not_opened
      | inl (h, found) ↦
          rw (uninstall_service, opened, found)
            (deleted-Uninstalls h w _ _ (lawful.opens m service_name delete_access w h found) refl)
    ]
  ]

  pub service_lem :
      (exe : Result Error Text) (w : W)
      → Installs exe w (install_service services exe windows w)
        × Uninstalls w (uninstall_service services windows w)
  service_lem exe w = (install_service-Installs exe w, uninstall_service-Uninstalls w)
