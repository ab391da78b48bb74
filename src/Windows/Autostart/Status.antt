-- ===== src/Windows/Autostart/Status.antt =====
-- The status of the autostart after it was enabled or disabled.
use weighing_data_sync.Prelude.{
  ◌≡◌, sym, ◌∙◌, ap, Bool, true, false, Option, none, some, is_some, Text,
}
use weighing_data_sync.Anyhow.{Error, Result, ok, is_ok}
use weighing_data_sync.Windows.{windows}
use weighing_data_sync.Windows.Autostart.{
  Registry, run_value_name, run_key, command, enable_autostart, disable_autostart,
  is_autostart_enabled,
}
use weighing_data_sync.Windows.Autostart.Documented.{IsRegistry}
use weighing_data_sync.Windows.Autostart.Laws.{
  Command, Enables, enabled, not_created, no_exe, not_written, Disables, disabled, not_opened,
  not_deleted, Reads, read, unread, enable_autostart-Enables, disable_autostart-Disables,
  is_autostart_enabled-Reads,
}

module _ {W K : Type 0} (registry : Registry W K) (lawful : IsRegistry registry) where
  -- What the command is once it has been written or removed.
  Command-here :
      (v : Option Text) (w w' : W)
      → Command registry lawful v w w'
      → lawful.string_at w' run_key run_value_name ≡ v
  Command-here v w w' written =
      written run_key run_value_name
      ∙ rw (lawful.reflexive run_key, lawful.reflexive run_value_name)

  Enables-stored :
      (exe : Result Error Text) (w w' : W) (out : Result Error (Unit {0}) × W)
      → out ≡ (ok tt, w')
      → Enables registry lawful exe w out
      → is_some (lawful.string_at w' run_key run_value_name) ≡ true
  Enables-stored exe w w' out same (enabled {exe_path} {w' = w''} found written) = ap is_some (
      ap (λ v. lawful.string_at v run_key run_value_name) (sym (ap (λ o. o.1) same))
      ∙ Command-here (some (command exe_path)) w w'' written)
  Enables-stored exe w w' out same (not_created _) = absurd cc
  Enables-stored exe w w' out same (no_exe _ _) = absurd cc
  Enables-stored exe w w' out same (not_written _) = absurd cc

  Disables-absent :
      (w w' : W) (out : Result Error (Unit {0}) × W)
      → out ≡ (ok tt, w')
      → Disables registry lawful w out
      → is_some (lawful.string_at w' run_key run_value_name) ≡ false
  Disables-absent w w' out same (disabled {w' = w''} written) = ap is_some (
      ap (λ v. lawful.string_at v run_key run_value_name) (sym (ap (λ o. o.1) same))
      ∙ Command-here none w w'' written)
  Disables-absent w w' out same (not_opened) = absurd cc
  Disables-absent w w' out same (not_deleted _) = absurd cc

  Reads-answer :
      (b : Bool) (w : W) (out : Result Error Bool)
      → is_some (lawful.string_at w run_key run_value_name) ≡ b
      → is_ok out ≡ true
      → Reads registry lawful w out
      → out ≡ ok b
  Reads-answer b w out stored readable read = ap ok stored
  Reads-answer b w out stored readable unread = absurd cc

  -- Where the status can be read, it is true after the autostart was enabled.
  pub status-enable :
      (exe : Result Error Text) (w w' : W)
      → enable_autostart registry exe windows w ≡ (ok tt, w')
      → is_ok (is_autostart_enabled registry windows w') ≡ true
      → is_autostart_enabled registry windows w' ≡ ok true
  status-enable exe w w' enables readable =
      Reads-answer true w' _
        (Enables-stored exe w w' _ enables (enable_autostart-Enables registry lawful exe w))
        readable (is_autostart_enabled-Reads registry lawful w')

  -- Where the status can be read, it is false after the autostart was disabled.
  pub status-disable :
      (w w' : W)
      → disable_autostart registry windows w ≡ (ok tt, w')
      → is_ok (is_autostart_enabled registry windows w') ≡ true
      → is_autostart_enabled registry windows w' ≡ ok false
  status-disable w w' disables readable =
      Reads-answer false w' _
        (Disables-absent w w' _ disables (disable_autostart-Disables registry lawful w)) readable
        (is_autostart_enabled-Reads registry lawful w')
