-- ===== src/Db/Connect.antt =====
-- db/mod.rs: opening the local cache, with its file and its tables. A `Host` is what is there before,
-- with a script of faults: the head says whether the next step fails, and a step that fails changes
-- nothing.
pub mod Steps
pub mod Files
pub mod Opens
use weighing_data_sync.Prelude.{
  ℕ, Bool, true, false, ◌||◌, if◌then◌else◌, Option, none, some, or_else, unwrap_or, option_filter,
  List, [], ◌∷◌, ◌++◌, not, is_empty, Text, codes, text_eq,
}
use weighing_data_sync.Anyhow.{Error, msg, context, Result, ok, err}
use weighing_data_sync.Text.{split_once, strip_prefix, has_infix}
use weighing_data_sync.Config.{DatabaseConfig}
use weighing_data_sync.Db.{Db, InboundPayload}
use weighing_data_sync.Db.Models.{Model}

-- The tables of the database; one that does not exist is `none`.
pub record Tables : Type 0 where
  pub weighing_records : Option (List Model)
  pub status_index : Bool
  pub inbound_payloads : Option (List InboundPayload)

-- `directories` and `files` are those that were created or opened, the last one first; `tables` are those
-- of the database that the URL names.
pub record Host : Type 0 where
  pub directories : List Text
  pub files : List Text
  pub tables : Tables
  pub faults : List (Option Error)

-- `DatabaseBackend`: another one is its `Debug` text.
pub data DatabaseBackend : Type 0 where
  sqlite : DatabaseBackend
  other : Text → DatabaseBackend

-- One step; `wrap` is what is put around its error.
step_on :
    (Error → Error) → (Host → Host) → List (Option Error) → Host → Result Error (Unit {0}) × Host
step_on wrap effect [] h = (ok tt, effect h)
step_on wrap effect (none ∷ faults) h = (ok tt, effect (record h { faults = faults }))
step_on wrap effect (some e ∷ faults) h = (err (wrap e), record h { faults = faults })

unfoldable pub step : Text → (Host → Host) → Host → Result Error (Unit {0}) × Host
unfolding step_on
step ctx effect h = step_on (context ctx) effect h.faults h

-- What follows a step, if it was taken.
abbrev pub next_step {ℓ} :
    {A : Type ℓ}
    → Result Error (Unit {0}) × Host
    → (Host → Result Error A × Host)
    → Result Error A × Host
next_step (ok _, h) next = next h
next_step (err e, h) next = (err e, h)

abbrev before_query : Option (Text × Text) → Text → Text
before_query none url = url
before_query (some (path, _)) url = path

unfoldable pub sqlite_path : Text → Option Text
unfolding strip_prefix split_once before_query
sqlite_path url =
    let without_query = before_query (split_once b'?' url) url in
    option_filter (λ path. not (is_empty path))
      (or_else (strip_prefix (codes "sqlite://") without_query)
        (strip_prefix (codes "sqlite:") without_query))

-- `create_dir_all` of a directory with a name, and `open` with `create` and `append`, which keeps what
-- a file has.
abbrev pub create_directory : Option Text → Host → Result Error (Unit {0}) × Host
create_directory none h = (ok tt, h)
create_directory (some parent) h =
    if is_empty parent
    then (ok tt, h)
    else step (codes "failed to create database directory " ++ parent)
        (λ h. record h { directories = parent ∷ h.directories }) h

abbrev pub create_file : Option Text → Host → Result Error (Unit {0}) × Host
create_file none h = (ok tt, h)
create_file (some path) h =
    if text_eq path (codes ":memory:")
    then (ok tt, h)
    else step (codes "failed to create SQLite database file " ++ path)
        (λ h. record h { files = path ∷ h.files }) h

-- `parent` is `Path::parent`.
module _ (parent : Text → Option Text) where
  abbrev pub parent_of : Option Text → Option Text
  parent_of none = none
  parent_of (some path) = parent path

  unfoldable pub ensure_sqlite_parent_dir : Text → Host → Result Error (Unit {0}) × Host
  unfolding sqlite_path has_infix text_eq
  ensure_sqlite_parent_dir url h =
      if text_eq url (codes "sqlite::memory:") || has_infix (codes ":memory:") url
      then (ok tt, h)
      else next_step (create_directory (parent_of (sqlite_path url)) h)
          (create_file (sqlite_path url))

-- `CREATE … IF NOT EXISTS`.
abbrev pub create_weighing_records : Tables → Tables
create_weighing_records t = record t { weighing_records = or_else t.weighing_records (some []) }

abbrev pub create_status_index : Tables → Tables
create_status_index t = record t { status_index = true }

abbrev pub create_inbound_payloads : Tables → Tables
create_inbound_payloads t = record t { inbound_payloads = or_else t.inbound_payloads (some []) }

unfoldable pub execute_sql : Text → (Tables → Tables) → Host → Result Error (Unit {0}) × Host
unfolding step
execute_sql ctx effect = step ctx (λ h. record h { tables = effect h.tables })

unfoldable pub run_migrations : DatabaseBackend → Host → Result Error (Unit {0}) × Host
unfolding execute_sql
run_migrations (other name) h =
    (err (msg (codes "local cache currently expects SQLite, got " ++ name)), h)
run_migrations sqlite h =
    next_step
      (execute_sql (codes "failed to create weighing_records table") create_weighing_records h)
      (λ h.
        next_step
          (execute_sql (codes "failed to create weighing_records status index") create_status_index
            h)
          (execute_sql (codes "failed to create inbound_payloads table") create_inbound_payloads))

abbrev pub rows_of : Tables → List Model
rows_of t = unwrap_or t.weighing_records []

abbrev pub inbound_of : Tables → List InboundPayload
inbound_of t = unwrap_or t.inbound_payloads []

-- The pool that is handed out: the tables, and the script for what is done with them.
abbrev pub pool_of : Host → Db
pool_of h = record { rows = rows_of h.tables; inbound = inbound_of h.tables; faults = h.faults }

abbrev pub handed_out : Result Error (Unit {0}) × Host → Result Error Db × Host
handed_out (ok _, h) = (ok (pool_of h), h)
handed_out (err e, h) = (err e, h)

-- The options of the pool go to the driver.
unfoldable pub connect :
    (Text → Option Text) → DatabaseBackend → DatabaseConfig → Host → Result Error Db × Host
unfolding ensure_sqlite_parent_dir step run_migrations
connect parent backend cfg h = handed_out (
    next_step (ensure_sqlite_parent_dir parent cfg.url h) (λ h.
      next_step (step (codes "failed to connect SQLite database with SeaORM") (λ h. h) h)
        (run_migrations backend)))
