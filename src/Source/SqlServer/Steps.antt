-- ===== src/Source/SqlServer/Steps.antt =====
-- A step at the server succeeds, or fails where the script says so and changes no row; so does a
-- connection, which is three steps.
use weighing_data_sync.Prelude.{
  ◌≡◌, refl, ◌∙◌, ◌⊎◌, inl, inr, true, Option, none, some, is_some, any, List, [], ◌∷◌, ◌++◌, Text,
  codes,
}
use weighing_data_sync.Anyhow.{Error, context, Result, ok, err}
use weighing_data_sync.Source.SqlServer.{
  WeightRow, Database, attempt, attempt_on, and_then, connect, same_rows,
}

-- Some step still to come fails.
abbrev pub HasFault : Database → Type 0
HasFault db = any is_some db.faults ≡ true

-- What a step with an effect on the rows comes to.
abbrev pub Stepped :
    (List WeightRow → List WeightRow) → Database → Result Error (Unit {0}) × Database → Type 0
Stepped effect db out =
    ((db' : Database) × (out ≡ (ok tt, db'))
      × (db'.rows ≡ effect db.rows)
      × (HasFault db' → HasFault db))
    ⊎ ((db' : Database) × (e : Error) × (out ≡ (err e, db')) × (db'.rows ≡ db.rows) × HasFault db)

pub attempt-cases :
    (ctx : Text) (effect : List WeightRow → List WeightRow) (db : Database)
    → Stepped effect db (attempt ctx effect db)
unfolding attempt attempt_on
attempt-cases ctx effect db = by_script db.faults refl
  where
    by_script :
        (faults : List (Option Error))
        → db.faults ≡ faults
        → Stepped effect db (attempt ctx effect db)
    by_script [] same = inl (record db { rows = effect db.rows }, rw (attempt, same), refl, λ h. h)
    by_script (none ∷ faults) same = inl (
      record { rows = effect db.rows; faults = faults },
      rw (attempt, same),
      refl,
      λ h. rw same h,
    )
    by_script (some e ∷ faults) same =
        inr (record db { faults = faults }, context ctx e, rw (attempt, same), refl, rw same refl)

-- Two steps that change no row.
pub and_then-Stepped :
    (db : Database) (out : Result Error (Unit {0}) × Database)
    (next : Database → Result Error (Unit {0}) × Database)
    → Stepped same_rows db out
    → ((db' : Database) → Stepped same_rows db' (next db'))
    → Stepped same_rows db (and_then out next)
and_then-Stepped db out next (inr (db', e, runs, rows, fault)) steps =
    rw runs (inr (db', e, refl, rows, fault))
and_then-Stepped db out next (inl (db', runs, rows, script)) steps = elim (steps db') [
  | inl (db_2, runs_2, rows_2, script_2) ↦
      rw runs (inl (db_2, runs_2, rows_2 ∙ rows, λ h. script (script_2 h)))
  | inr (db_2, e, runs_2, rows_2, fault) ↦
      rw runs (inr (db_2, e, runs_2, rows_2 ∙ rows, script fault))
]

pub connect-cases : (address : Text) (db : Database) → Stepped same_rows db (connect address db)
unfolding connect
connect-cases address db =
    and_then-Stepped db _ _
      (attempt-cases (codes "failed to connect SQL Server " ++ address) same_rows db)
      (λ s.
        and_then-Stepped s _ _
          (attempt-cases (codes "failed to enable TCP_NODELAY for SQL Server connection") same_rows
            s)
          (attempt-cases (codes "failed to login SQL Server") same_rows))
