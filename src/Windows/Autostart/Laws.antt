-- ===== src/Windows/Autostart/Laws.antt =====
-- The autostart as a command that is there or not.
use weighing_data_sync.Prelude.{
  ◌≡◌, refl, sym, ◌∙◌, ap, ◌⊎◌, inl, inr, Bool, true, Bool-cases, ◌&&◌, if◌then◌else◌, Option, none,
  some, is_some, ◌++◌, Text, codes, arith,
}
use weighing_data_sync.Anyhow.{Error, context, Result, ok, err, Result-cases}
use weighing_data_sync.Windows.{windows}
use weighing_data_sync.Windows.Autostart.{
  IoError, not_found, failed, key_read, key_set_value, Registry, run_value_name, run_key, command,
  open_text, enable_autostart, disable_autostart, is_autostart_enabled, deleted, created,
  write_command,
}
use weighing_data_sync.Windows.Autostart.Documented.{IsRegistry}

-- How a call that returns nothing can end.
pair-cases :
    {E W : Type 0} (out : Result E (Unit {0}) × W)
    → ((w : W) × (out ≡ (ok tt, w))) ⊎ ((e : E) × (w : W) × (out ≡ (err e, w)))
pair-cases (ok tt, w) = inl (w, refl)
pair-cases (err e, w) = inr (e, w, refl)

both : {a b : Bool} → (a && b) ≡ true → (a ≡ true) × (b ≡ true)
both h = (ground (arith, h), ground (arith, h))

module _ {W K : Type 0} (registry : Registry W K) (lawful : IsRegistry registry) where
  -- Every string stands as before.
  abbrev pub Unchanged : W → W → Type 0
  Unchanged w w' = (p n : Text) → lawful.string_at w' p n ≡ lawful.string_at w p n

  -- The name of the program under the Run key has the given string or none, and every other string
  -- stands as before.
  abbrev pub Command : Option Text → W → W → Type 0
  Command v w w' =
      (p n : Text)
      → lawful.string_at w' p n ≡ (
          if lawful.same p run_key && lawful.same n run_value_name
          then v
          else lawful.string_at w p n)

  -- What `enable_autostart` comes to.
  pub data Enables (current_exe : Result Error Text) (w : W)
      : Result Error (Unit {0}) × W → Type 0 where
    enabled :
        {exe_path : Text} {w' : W}
        → current_exe ≡ ok exe_path
        → Command (some (codes "\"" ++ (exe_path ++ codes "\" run"))) w w'
        → Enables current_exe w (ok tt, w')
    not_created :
        {e : Error} {w' : W}
        → Unchanged w w'
        → Enables current_exe w (err (context open_text e), w')
    no_exe :
        {e : Error} {w' : W}
        → current_exe ≡ err e
        → Unchanged w w'
        → Enables current_exe w
            (err (context (codes "failed to resolve current executable path") e), w')
    not_written :
        {e : Error} {w' : W}
        → Unchanged w w'
        → Enables current_exe w
            (err (context (codes "failed to write Windows autostart registry value") e), w')

  -- What `disable_autostart` comes to.
  pub data Disables (w : W) : Result Error (Unit {0}) × W → Type 0 where
    disabled : {w' : W} → Command none w w' → Disables w (ok tt, w')
    not_opened : {e : Error} → Disables w (err (context open_text e), w)
    not_deleted :
        {e : Error} {w' : W}
        → Unchanged w w'
        → Disables w
            (err (context (codes "failed to delete Windows autostart registry value") e), w')

  -- What `is_autostart_enabled` comes to.
  pub data Reads (w : W) : Result Error Bool → Type 0 where
    read : Reads w (ok (is_some (lawful.string_at w run_key run_value_name)))
    unread : {e : Error} → Reads w (err (context open_text e))

  written-Enables :
      (exe : Result Error Text) (key : K) (w w' : W)
      → lawful.path_of key ≡ run_key
      → Unchanged w w'
      → Enables exe w (write_command registry exe key w')
  written-Enables (err e) key w w' at same = no_exe refl same
  written-Enables (ok exe_path) key w w' at same =
      elim (pair-cases (registry.set_value key run_value_name (command exe_path) w')) [
        | inl (w'', sets) ↦ rw sets (
            enabled refl (λ p n.
              lawful.sets key run_value_name (command exe_path) w' w'' sets p n
              ∙ rw (at, same p n)))
        | inr (e, w'', fails) ↦ rw fails (
            not_written (λ p n.
              lawful.set_fails key run_value_name (command exe_path) e w' w'' fails p n ∙ same p n))
      ]

  created-Enables :
      (exe : Result Error Text) (w : W) (out : Result Error K × W)
      → registry.create_subkey run_key w ≡ out
      → Enables exe w (created registry exe out)
  created-Enables exe w (err e, w') same =
      not_created
        (λ p n. ap (λ o. lawful.string_at o.1 p n) (sym same) ∙ lawful.create_keeps run_key w p n)
  created-Enables exe w (ok key, w') same =
      written-Enables exe key w w' (lawful.creates run_key w w' key same)
        (λ p n. ap (λ o. lawful.string_at o.1 p n) (sym same) ∙ lawful.create_keeps run_key w p n)

  pub enable_autostart-Enables :
      (exe : Result Error Text) (w : W) → Enables exe w (enable_autostart registry exe windows w)
  unfolding enable_autostart
  enable_autostart-Enables exe w = created-Enables exe w (registry.create_subkey run_key w) refl

  -- Where there was no command, nothing changes by removing it.
  absent-Command :
      (w w' : W)
      → lawful.string_at w run_key run_value_name ≡ none
      → Unchanged w w'
      → Command none w w'
  absent-Command w w' absent same p n =
      elim (Bool-cases (lawful.same p run_key && lawful.same n run_value_name)) [
        | inr other ↦ rw other (same p n)
        | inl named ↦
            let (this_key, this_name) = both named in
            rw named (
              same p n ∙ lawful.one_string w p run_key n run_value_name this_key this_name ∙ absent)
      ]

  deleted-Disables :
      (key : K) (w w' : W) (r : Result IoError (Unit {0}))
      → lawful.path_of key ≡ run_key
      → registry.delete_value key run_value_name w ≡ (r, w')
      → Disables w (deleted registry (r, w'))
  deleted-Disables key w w' (ok tt) at same =
      disabled λ p n. lawful.deletes key run_value_name w w' same p n ∙ rw at
  deleted-Disables key w w' (err (not_found e)) at same = disabled (
      absent-Command w w'
        (ap (λ path. lawful.string_at w path run_value_name) (sym at)
          ∙ lawful.not_found_ key run_value_name e w w' same)
        (lawful.delete_fails key run_value_name (not_found e) w w' same))
  deleted-Disables key w w' (err (failed e)) at same =
      not_deleted (lawful.delete_fails key run_value_name (failed e) w w' same)

  pub disable_autostart-Disables : (w : W) → Disables w (disable_autostart registry windows w)
  unfolding disable_autostart
  disable_autostart-Disables w =
      elim (Result-cases (registry.open_subkey key_set_value run_key w)) [
        | inr (e, refuses) ↦ rw (disable_autostart, refuses) not_opened
        | inl (key, opened) ↦
            rw (disable_autostart, opened)
              (deleted-Disables key w _ _ (lawful.opens key_set_value run_key w key opened) refl)
      ]

  pub is_autostart_enabled-Reads : (w : W) → Reads w (is_autostart_enabled registry windows w)
  unfolding is_autostart_enabled
  is_autostart_enabled-Reads w = elim (Result-cases (registry.open_subkey key_read run_key w)) [
    | inr (e, refuses) ↦ rw (is_autostart_enabled, refuses) unread
    | inl (key, opened) ↦
        rw (is_autostart_enabled, opened, lawful.reads run_key run_value_name w key opened) read
  ]

  pub autostart_lem :
      (exe : Result Error Text) (w : W)
      → Enables exe w (enable_autostart registry exe windows w)
        × Disables w (disable_autostart registry windows w)
        × Reads w (is_autostart_enabled registry windows w)
  autostart_lem exe w =
      (enable_autostart-Enables exe w, disable_autostart-Disables w, is_autostart_enabled-Reads w)
