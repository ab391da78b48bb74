-- ===== src/Db/Connect/Files.antt =====
-- What opening the file of the cache comes to.
use weighing_data_sync.Prelude.{
  sym, any, is_some, ◌≡◌, refl, ◌∙◌, ap, inl, inr, Bool-cases, if◌then◌else◌, Option, none, some,
  List, ◌∷◌, ◌++◌, is_empty, Text, codes, text_eq,
}
use weighing_data_sync.Anyhow.{Error, Result, ok, err}
use weighing_data_sync.Db.Connect.{Host, step, next_step, create_directory, create_file}
use weighing_data_sync.Db.Connect.Steps.{step-cases, HasFault}

-- Steps that touch no table: they are taken and leave these files, or one fails.
pub data Aside (files : List Text) (h : Host) : Result Error (Unit {0}) × Host → Type 0 where
  done :
      (h' : Host)
      → h'.tables ≡ h.tables
      → h'.files ≡ files
      → (HasFault h' → HasFault h)
      → Aside files h (ok tt, h')
  stopped : (h' : Host) (e : Error) → h'.tables ≡ h.tables → HasFault h → Aside files h (err e, h')

step-Aside :
    (ctx : Text) (effect : Host → Host) (files : List Text) (h : Host)
    → ((faults : List (Option Error))
        → let h' = effect (record h { faults = faults }) in
          (h'.tables ≡ h.tables) × (h'.files ≡ files) × (h'.faults ≡ faults))
    → Aside files h (step ctx effect h)
step-Aside ctx effect files h only = elim (step-cases ctx effect h) [
  | inl (faults, runs, script) ↦
      let (tables, same, rest) = only faults in
      rw runs (done _ tables same (λ fault. script (sym (ap (λ l. any is_some l) rest) ∙ fault)))
  | inr (faults, e, runs, fault) ↦ rw runs (stopped _ e refl fault)
]

pub create_directory-Aside : (p : Option Text) (h : Host) → Aside h.files h (create_directory p h)
create_directory-Aside none h = done h refl refl (λ fault. fault)
create_directory-Aside (some parent) h = elim (Bool-cases (is_empty parent)) [
  | inl nameless ↦ rw nameless (done h refl refl (λ fault. fault))
  | inr named ↦ rw named (
      step-Aside (codes "failed to create database directory " ++ parent)
        (λ h. record h { directories = parent ∷ h.directories }) h.files h
        (λ faults. (refl, refl, refl)))
]

-- The files after the file of the path is opened.
abbrev pub with_file : Option Text → List Text → List Text
with_file none files = files
with_file (some path) files = if text_eq path (codes ":memory:") then files else path ∷ files

pub create_file-Aside :
    (p : Option Text) (h : Host) → Aside (with_file p h.files) h (create_file p h)
create_file-Aside none h = done h refl refl (λ fault. fault)
create_file-Aside (some path) h = elim (Bool-cases (text_eq path (codes ":memory:"))) [
  | inl memory ↦ rw memory (done h refl refl (λ fault. fault))
  | inr disk ↦ rw disk (
      step-Aside (codes "failed to create SQLite database file " ++ path)
        (λ h. record h { files = path ∷ h.files }) (path ∷ h.files) h
        (λ faults. (refl, refl, refl)))
]

pub next_step-Aside :
    (p : Option Text) (h : Host) (out : Result Error (Unit {0}) × Host)
    → Aside h.files h out
    → Aside (with_file p h.files) h (next_step out (create_file p))
next_step-Aside p h out (stopped h' e tables fault) = stopped h' e tables fault
next_step-Aside p h out (done h' tables files script) =
    after (create_file p h') (create_file-Aside p h')
  where
    after :
        (out' : Result Error (Unit {0}) × Host)
        → Aside (with_file p h'.files) h' out'
        → Aside (with_file p h.files) h out'
    after out' (done h'' tables' files' script') =
        done h'' (tables' ∙ tables) (files' ∙ ap (with_file p) files)
          (λ fault. script (script' fault))
    after out' (stopped h'' e tables' fault) = stopped h'' e (tables' ∙ tables) (script fault)
