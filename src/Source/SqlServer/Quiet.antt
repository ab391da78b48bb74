-- ===== src/Source/SqlServer/Quiet.antt =====
-- source/sqlserver.rs where no step at the server fails.
use weighing_data_sync.Prelude.{
  ℕ, ◌≡◌, Bool, Bool-cases, not, ◌||◌, inl, inr, List, [], ◌∷◌, is_empty, Text,
}
use weighing_data_sync.Anyhow.{ok}
use weighing_data_sync.Source.SqlServer.{
  WeightRow, Database, SqlServerSource, attempt, attempt_on, connect, mark_chunks, mark_uploaded,
  chunks, mark_upload_chunk_size, same_rows,
}

-- A script without faults stays so.
abbrev pub Quiet : Database → Type 0
Quiet db = db.faults ≡ []

pub attempt-Quiet :
    (ctx : Text) (effect : List WeightRow → List WeightRow) (db : Database)
    → Quiet db
    → attempt ctx effect db ≡ (ok tt, record db { rows = effect db.rows })
unfolding attempt attempt_on
attempt-Quiet ctx effect db h = rw (attempt, h)

pub attempt_nothing-Quiet :
    (ctx : Text) (db : Database) → Quiet db → attempt ctx same_rows db ≡ (ok tt, db)
attempt_nothing-Quiet ctx db h = attempt-Quiet ctx same_rows db h

pub connect-Quiet : (address : Text) (db : Database) → Quiet db → connect address db ≡ (ok tt, db)
unfolding connect
connect-Quiet address db h = rw (
  connect,
  attempt_nothing-Quiet _ db h,
  attempt_nothing-Quiet _ db h,
  attempt_nothing-Quiet _ db h,
)

mark_chunks-Quiet :
    (equal : Text → Text → Bool) (show : ℕ → Text) (parts : List (List Text)) (db : Database)
    → Quiet db
    → Quiet (mark_chunks equal show parts db).1
unfolding mark_chunks
mark_chunks-Quiet equal show [] db h = h
mark_chunks-Quiet equal show (part ∷ later) db h =
    rw (mark_chunks, attempt-Quiet _ _ db h) (mark_chunks-Quiet equal show later _ h)

pub mark_uploaded-Quiet :
    (equal : Text → Text → Bool) (show : ℕ → Text) (address : Text) (source : SqlServerSource)
    (serial_nos : List Text) (db : Database)
    → Quiet db
    → Quiet (mark_uploaded equal show address source serial_nos db).1
unfolding mark_uploaded
mark_uploaded-Quiet equal show address source serial_nos db h =
    elim (Bool-cases (is_empty serial_nos || not source.cfg.mark_uploaded)) [
      | inl idle ↦ rw (mark_uploaded, idle) h
      | inr busy ↦
          rw (mark_uploaded, busy, connect-Quiet address db h)
            (mark_chunks-Quiet equal show (chunks mark_upload_chunk_size serial_nos) db h)
    ]
