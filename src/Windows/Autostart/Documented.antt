-- ===== src/Windows/Autostart/Documented.antt =====
-- How the registry is documented to behave.
use weighing_data_sync.Prelude.{
  ◌≡◌, Bool, true, ◌&&◌, if◌then◌else◌, Option, none, some, is_some, Text,
}
use weighing_data_sync.Anyhow.{Error, ok, err, is_ok}
use weighing_data_sync.Windows.Autostart.{IoError, not_found, KeyAccess, key_read, Registry}

module _ {W K : Type 0} (registry : Registry W K) where
  -- How a registry is documented to behave: `string_at` is the string under a key and a name, which
  -- are compared by `same`, and `path_of` is the path of an open key.
  pub record IsRegistry : Type 0 where
    pub same : Text → Text → Bool
    pub string_at : W → (path name : Text) → Option Text
    pub path_of : K → Text
    pub reflexive : (t : Text) → same t t ≡ true
    pub one_string :
        (w : W) (p p' n n' : Text)
        → same p p' ≡ true
        → same n n' ≡ true
        → string_at w p n ≡ string_at w p' n'
    pub creates :
        (path : Text) (w w' : W) (k : K)
        → registry.create_subkey path w ≡ (ok k, w')
        → path_of k ≡ path
    pub create_keeps :
        (path : Text) (w : W) (p n : Text)
        → string_at (registry.create_subkey path w).1 p n ≡ string_at w p n
    pub opens :
        (access : KeyAccess) (path : Text) (w : W) (k : K)
        → registry.open_subkey access path w ≡ ok k
        → path_of k ≡ path
    pub sets :
        (k : K) (name text : Text) (w w' : W)
        → registry.set_value k name text w ≡ (ok tt, w')
        → (p n : Text)
        → string_at w' p n
          ≡ (if same p (path_of k) && same n name then some text else string_at w p n)
    pub set_fails :
        (k : K) (name text : Text) (e : Error) (w w' : W)
        → registry.set_value k name text w ≡ (err e, w')
        → (p n : Text) → string_at w' p n ≡ string_at w p n
    pub deletes :
        (k : K) (name : Text) (w w' : W)
        → registry.delete_value k name w ≡ (ok tt, w')
        → (p n : Text)
        → string_at w' p n ≡ (if same p (path_of k) && same n name then none else string_at w p n)
    pub delete_fails :
        (k : K) (name : Text) (x : IoError) (w w' : W)
        → registry.delete_value k name w ≡ (err x, w')
        → (p n : Text) → string_at w' p n ≡ string_at w p n
    pub not_found_ :
        (k : K) (name : Text) (e : Error) (w w' : W)
        → registry.delete_value k name w ≡ (err (not_found e), w')
        → string_at w (path_of k) name ≡ none
    pub reads :
        (path name : Text) (w : W) (k : K)
        → registry.open_subkey key_read path w ≡ ok k
        → is_ok (registry.get_value k name w) ≡ is_some (string_at w path name)
