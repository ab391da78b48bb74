-- ===== src/Tests/System.antt =====
-- A system whose registry and list of services are functions, which behave as documented.
use weighing_data_sync.Prelude.{
  ◌≡◌, refl, sym, ◌∙◌, ap, ◌&&◌, if◌then◌else◌, Option, none, some, is_some, Text, codes, text_eq,
  text_eq_refl, text_eq_sound,
}
use weighing_data_sync.Anyhow.{Error, msg, Result, ok, err, is_ok, ok_injective}
use weighing_data_sync.Windows.Autostart.{Registry, IoError, not_found}
use weighing_data_sync.Windows.Autostart.Documented.{IsRegistry}
use weighing_data_sync.Windows.Service.{ServiceInfo, ServiceManager}
use weighing_data_sync.Windows.Service.Documented.{Entry, IsServiceManager}

pub record System : Type 0 where
  pub strings : Text → Text → Option Text
  pub entries : Text → Option Entry

abbrev set_string : Text → Text → Option Text → System → System
set_string path name v w = record w {
  strings = λ p n. if text_eq p path && text_eq n name then v else w.strings p n;
}

abbrev deletion : Text → Text → System → Option Text → Result IoError (Unit {0}) × System
deletion path name w none = (err (not_found (msg (codes "no value"))), w)
deletion path name w (some t) = (ok tt, set_string path name none w)

abbrev read_string : Option Text → Result Error Text
read_string none = err (msg (codes "no value"))
read_string (some t) = ok t

abbrev pub registry : Registry System Text
registry = record {
  create_subkey = λ path w. (ok path, w);
  open_subkey = λ access path w. ok path;
  set_value = λ path name text w. (ok tt, set_string path name (some text) w);
  delete_value = λ path name w. deletion path name w (w.strings path name);
  get_value = λ path name w. read_string (w.strings path name);
}

-- What a deletion comes to.
deletes_ok :
    (path name : Text) (w w' : System) (old : Option Text)
    → deletion path name w old ≡ (ok tt, w')
    → (p n : Text)
    → w'.strings p n ≡ (if text_eq p path && text_eq n name then none else w.strings p n)
deletes_ok path name w w' none same p n = let results = ap (λ o. o.0) same in absurd cc
deletes_ok path name w w' (some t) same p n = ap (λ o. o.1.strings p n) (sym same)

deletes_err :
    (path name : Text) (w w' : System) (old : Option Text) (x : IoError)
    → deletion path name w old ≡ (err x, w')
    → (p n : Text) → w'.strings p n ≡ w.strings p n
deletes_err path name w w' none x same p n = ap (λ o. o.1.strings p n) (sym same)
deletes_err path name w w' (some t) x same p n = let results = ap (λ o. o.0) same in absurd cc

deletes_nothing :
    (path name : Text) (w w' : System) (old : Option Text) (e : Error)
    → deletion path name w old ≡ (err (not_found e), w')
    → old ≡ none
deletes_nothing path name w w' none e same = refl
deletes_nothing path name w w' (some t) e same = let results = ap (λ o. o.0) same in absurd cc

read_string-is_ok : (old : Option Text) → is_ok (read_string old) ≡ is_some old
read_string-is_ok none = refl
read_string-is_ok (some t) = refl

pub registry-IsRegistry : IsRegistry registry
registry-IsRegistry = record {
  same = text_eq;
  string_at = λ w p n. w.strings p n;
  path_of = λ path. path;
  reflexive = text_eq_refl;
  one_string = λ w p p' n n' same_path same_name.
      ap (λ x. w.strings x n) (text_eq_sound p p' same_path)
      ∙ ap (w.strings p') (text_eq_sound n n' same_name);
  creates = λ path w w' k same. sym (key_of path k (ap (λ o. o.0) same));
  create_keeps = λ path w p n. refl;
  opens = λ access path w k same. sym (key_of path k same);
  sets = λ k name text w w' same p n. ap (λ o. o.1.strings p n) (sym same);
  set_fails = λ k name text e w w' same. let results = ap (λ o. o.0) same in absurd cc;
  deletes = λ k name w w' same. deletes_ok k name w w' (w.strings k name) same;
  delete_fails = λ k name x w w' same. deletes_err k name w w' (w.strings k name) x same;
  not_found_ = λ k name e w w' same. deletes_nothing k name w w' (w.strings k name) e same;
  reads = λ path name w k same.
      read_string-is_ok (w.strings k name)
      ∙ ap (λ x. is_some (w.strings x name)) (sym (key_of path k same));
}
  where
    key_of : (path k : Text) → Path (Result Error Text) (ok path) (ok k) → path ≡ k
    key_of path k same = cc

abbrev set_entry : Text → Option Entry → System → System
set_entry name v w = record w { entries = λ n. if text_eq n name then v else w.entries n }

abbrev creation : ServiceInfo → System → Option Entry → Result Error Text × System
creation info w none = (ok info.name, set_entry info.name (some (info, none)) w)
creation info w (some entry) = (err (msg (codes "exists")), w)

abbrev describing : Text → Text → System → Option Entry → Result Error (Unit {0}) × System
describing name text w none = (err (msg (codes "gone")), w)
describing name text w (some (info, old)) = (ok tt, set_entry name (some (info, some text)) w)

abbrev pub services : ServiceManager System (Unit {0}) Text
services = record {
  local_computer = λ access w. ok tt;
  create_service = λ manager info access w. creation info w (w.entries info.name);
  set_description = λ name text w. describing name text w (w.entries name);
  open_service = λ manager name access w. ok name;
  delete = λ name w. (ok tt, set_entry name none w);
}

creates_ok :
    (info : ServiceInfo) (w w' : System) (old : Option Entry) (h : Text)
    → creation info w old ≡ (ok h, w')
    → (h ≡ info.name)
      × (old ≡ none)
      × ((n : Text)
          → w'.entries n ≡ (if text_eq n info.name then some (info, none) else w.entries n))
creates_ok info w w' none h same = (
  sym (ok_injective _ _ _ (refl) (ap (λ o. o.0) same)),
  refl,
  λ n. ap (λ o. o.1.entries n) (sym same),
)
creates_ok info w w' (some entry) h same = let results = ap (λ o. o.0) same in absurd cc

creates_err :
    (info : ServiceInfo) (w w' : System) (old : Option Entry) (e : Error)
    → creation info w old ≡ (err e, w')
    → (n : Text) → w'.entries n ≡ w.entries n
creates_err info w w' none e same n = let results = ap (λ o. o.0) same in absurd cc
creates_err info w w' (some entry) e same n = ap (λ o. o.1.entries n) (sym same)

describes_ok :
    (name text : Text) (w w' : System) (found : Option Entry) (info : ServiceInfo)
    (old : Option Text)
    → describing name text w found ≡ (ok tt, w')
    → found ≡ some (info, old)
    → (n : Text) → w'.entries n ≡ (if text_eq n name then some (info, some text) else w.entries n)
describes_ok name text w w' none info old same there n =
    let results = ap (λ o. o.0) same in absurd cc
describes_ok name text w w' (some (info', old')) info old same there n =
    ap (λ o. o.1.entries n) (sym same)
    ∙ ap (λ i. if text_eq n name then some (i, some text) else w.entries n) (info_of there)
  where
    info_of : Path (Option Entry) (some (info', old')) (some (info, old)) → info' ≡ info
    info_of h = cc

describes_err :
    (name text : Text) (w w' : System) (found : Option Entry) (e : Error)
    → describing name text w found ≡ (err e, w')
    → (n : Text) → w'.entries n ≡ w.entries n
describes_err name text w w' none e same n = ap (λ o. o.1.entries n) (sym same)
describes_err name text w w' (some (info, old)) e same n =
    let results = ap (λ o. o.0) same in absurd cc

pub services-IsServiceManager : IsServiceManager services
services-IsServiceManager = record {
  same = text_eq;
  entry = λ w n. w.entries n;
  name_of = λ name. name;
  reflexive = text_eq_refl;
  creates = λ m info access w w' h same. creates_ok info w w' (w.entries info.name) h same;
  create_fails = λ m info access w w' e same. creates_err info w w' (w.entries info.name) e same;
  describes =
      λ h text w w' info old same there. describes_ok h text w w' (w.entries h) info old same there;
  describe_fails = λ h text w w' e same. describes_err h text w w' (w.entries h) e same;
  opens = λ m name access w h same. sym (ok_injective _ _ _ refl same);
  deletes = λ h w w' same n. ap (λ o. o.1.entries n) (sym same);
  delete_fails = λ h w w' e same. let results = ap (λ o. o.0) same in absurd cc;
}
