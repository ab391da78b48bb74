-- ===== src/Db/Connect/Steps.antt =====
-- What a step of opening the cache comes to, and steps one after another.
use weighing_data_sync.Prelude.{
  ◌⊎◌, inl, inr, ◌≡◌, refl, ◌∙◌, ap, true, Option, none, some, is_some, any, List, [], ◌∷◌, Text,
}
use weighing_data_sync.Anyhow.{Error, context, Result, ok, err}
use weighing_data_sync.Db.Connect.{Host, Tables, step, step_on, next_step, rows_of, inbound_of}

-- Some step still to come fails.
abbrev pub HasFault : Host → Type 0
HasFault h = any is_some h.faults ≡ true

-- No row is lost or added.
pub record SameRows (t t' : Tables) : Type 0 where
  pub rows : rows_of t' ≡ rows_of t
  pub inbound : inbound_of t' ≡ inbound_of t

pub SameRows-refl : (t : Tables) → SameRows t t
SameRows-refl t = record { rows = refl; inbound = refl }

pub SameRows-trans : (t u v : Tables) → SameRows t u → SameRows u v → SameRows t v
SameRows-trans t u v h k = record { rows = k.rows ∙ h.rows; inbound = k.inbound ∙ h.inbound }

-- What steps on the tables come to: all of them are taken, with their effect, or one fails; no other
-- part of the host is touched.
pub data Taken (effect : Tables → Tables) (h : Host) : Result Error (Unit {0}) × Host → Type 0 where
  taken :
      (h' : Host)
      → h'.tables ≡ effect h.tables
      → SameRows h.tables (effect h.tables)
      → (h'.files ≡ h.files) × (h'.directories ≡ h.directories)
      → (HasFault h' → HasFault h)
      → Taken effect h (ok tt, h')
  failed :
      (h' : Host) (e : Error)
      → SameRows h.tables h'.tables
      → (h'.files ≡ h.files) × (h'.directories ≡ h.directories)
      → HasFault h
      → Taken effect h (err e, h')

-- A step is taken, or fails where the script says so and changes nothing.
pub step-cases :
    (ctx : Text) (effect : Host → Host) (h : Host)
    → ((faults : List (Option Error)) × (step ctx effect h
          ≡ (ok tt, effect (record h { faults = faults })))
        × (any is_some faults ≡ true → HasFault h))
      ⊎ ((faults : List (Option Error)) × (e : Error) × (step ctx effect h
            ≡ (err e, record h { faults = faults }))
          × HasFault h)
unfolding step step_on
step-cases ctx effect h = by_script h.faults refl
  where
    by_script :
        (script : List (Option Error))
        → h.faults ≡ script
        → ((faults : List (Option Error)) × (step_on (context ctx) effect script h
              ≡ (ok tt, effect (record h { faults = faults })))
            × (any is_some faults ≡ true → HasFault h))
          ⊎ ((faults : List (Option Error)) × (e : Error) × (step_on (context ctx) effect script h
                ≡ (err e, record h { faults = faults }))
              × HasFault h)
    by_script [] same = inl (h.faults, refl, λ fault. fault)
    by_script (none ∷ faults) same = inl (faults, refl, λ fault. rw same fault)
    by_script (some e ∷ faults) same = inr (faults, context ctx e, refl, rw same refl)

pub step-Taken :
    (ctx : Text) (effect : Tables → Tables) (h : Host)
    → SameRows h.tables (effect h.tables)
    → Taken effect h (step ctx (λ h. record h { tables = effect h.tables }) h)
step-Taken ctx effect h same =
    elim (step-cases ctx (λ h. record h { tables = effect h.tables }) h) [
      | inl (faults, runs, script) ↦ rw runs (taken _ refl same (refl, refl) script)
      | inr (faults, e, runs, fault) ↦
          rw runs (failed _ e (SameRows-refl h.tables) (refl, refl) fault)
    ]

pub next_step-Taken :
    (f g : Tables → Tables) (h : Host) (out : Result Error (Unit {0}) × Host)
    (next : Host → Result Error (Unit {0}) × Host)
    → Taken f h out
    → ((h' : Host) → Taken g h' (next h'))
    → Taken (λ t. g (f t)) h (next_step out next)
next_step-Taken f g h out next (failed h' e same rest fault) later = failed h' e same rest fault
next_step-Taken f g h out next (taken h' tables same (files, directories) script) later =
    after (next h') (later h')
  where
    after : (out' : Result Error (Unit {0}) × Host) → Taken g h' out' → Taken (λ t. g (f t)) h out'
    after out' (taken h'' tables' same' (files', directories') script') =
        taken h'' (tables' ∙ ap g tables)
          (SameRows-trans h.tables (f h.tables) (g (f h.tables)) same (rw (← tables) same'))
          (files' ∙ files, directories' ∙ directories) (λ fault. script (script' fault))
    after out' (failed h'' e same' (files', directories') fault) =
        failed h'' e (SameRows-trans h.tables h'.tables h''.tables (rw tables same) same')
          (files' ∙ files, directories' ∙ directories) (script fault)
