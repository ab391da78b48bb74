-- ===== src/Windows/Service/Documented.antt =====
-- How the service manager is documented to behave.
use weighing_data_sync.Prelude.{◌≡◌, Bool, true, if◌then◌else◌, Option, none, some, Text}
use weighing_data_sync.Anyhow.{Error, ok, err}
use weighing_data_sync.Windows.Service.{ServiceAccess, ServiceInfo, ServiceManager}

-- A service with its description.
abbrev pub Entry : Type 0
Entry = ServiceInfo × Option Text

module _ {W M H : Type 0} (services : ServiceManager W M H) where
  -- How the service manager is documented to behave: `entry` is the service of a name that is not
  -- marked for deletion, names are compared by `same`, and `name_of` is the name of an open service.
  pub record IsServiceManager : Type 0 where
    pub same : Text → Text → Bool
    pub entry : W → Text → Option Entry
    pub name_of : H → Text
    pub reflexive : (t : Text) → same t t ≡ true
    pub creates :
        (m : M) (info : ServiceInfo) (access : ServiceAccess) (w w' : W) (h : H)
        → services.create_service m info access w ≡ (ok h, w')
        → (name_of h ≡ info.name)
          × (entry w info.name ≡ none)
          × ((n : Text) → entry w' n ≡ (if same n info.name then some (info, none) else entry w n))
    pub create_fails :
        (m : M) (info : ServiceInfo) (access : ServiceAccess) (w w' : W) (e : Error)
        → services.create_service m info access w ≡ (err e, w')
        → (n : Text) → entry w' n ≡ entry w n
    pub describes :
        (h : H) (text : Text) (w w' : W) (info : ServiceInfo) (old : Option Text)
        → services.set_description h text w ≡ (ok tt, w')
        → entry w (name_of h) ≡ some (info, old)
        → (n : Text)
        → entry w' n ≡ (if same n (name_of h) then some (info, some text) else entry w n)
    pub describe_fails :
        (h : H) (text : Text) (w w' : W) (e : Error)
        → services.set_description h text w ≡ (err e, w')
        → (n : Text) → entry w' n ≡ entry w n
    pub opens :
        (m : M) (name : Text) (access : ServiceAccess) (w : W) (h : H)
        → services.open_service m name access w ≡ ok h
        → name_of h ≡ name
    pub deletes :
        (h : H) (w w' : W)
        → services.delete h w ≡ (ok tt, w')
        → (n : Text) → entry w' n ≡ (if same n (name_of h) then none else entry w n)
    pub delete_fails :
        (h : H) (w w' : W) (e : Error)
        → services.delete h w ≡ (err e, w')
        → (n : Text) → entry w' n ≡ entry w n
