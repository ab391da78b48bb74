-- ===== src/Db/Connect/Opens.antt =====
-- Opening the cache keeps what it holds.
use weighing_data_sync.Prelude.{
  ◌≡◌, ◌≢◌, refl, sym, ◌∙◌, ap, ◌⊎◌, inl, inr, Bool, Bool-cases, ◌||◌, if◌then◌else◌, Option, none,
  some, or_else, unwrap_or, List, [], Text, codes, text_eq,
}
use weighing_data_sync.Anyhow.{Error, Result, ok, err}
use weighing_data_sync.Text.{has_infix}
use weighing_data_sync.Config.{DatabaseConfig}
use weighing_data_sync.Db.{Db}
use weighing_data_sync.Db.Connect.{
  Host, Tables, DatabaseBackend, sqlite, other, step, next_step, rows_of, inbound_of, parent_of,
  sqlite_path, ensure_sqlite_parent_dir, create_weighing_records, create_status_index,
  create_inbound_payloads, execute_sql, run_migrations, pool_of, handed_out, connect,
}
use weighing_data_sync.Db.Connect.Steps.{
  HasFault, SameRows, SameRows-refl, Taken, taken, failed, step-Taken, next_step-Taken,
}
use weighing_data_sync.Db.Connect.Files.{
  Aside, done, stopped, with_file, create_directory-Aside, next_step-Aside,
}

-- The tables after the migrations: those that were missing are there, and empty.
abbrev pub migrated : Tables → Tables
migrated t = create_inbound_payloads (create_status_index (create_weighing_records t))

or_else-same :
    {A : Type 0} (o : Option (List A)) → unwrap_or (or_else o (some [])) [] ≡ unwrap_or o []
or_else-same none = refl
or_else-same (some xs) = refl

migrated-SameRows : (t : Tables) → SameRows t (migrated t)
migrated-SameRows t = record {
  rows = or_else-same t.weighing_records;
  inbound = or_else-same t.inbound_payloads;
}

-- A database in memory.
abbrev pub in_memory : Text → Bool
in_memory url = text_eq url (codes "sqlite::memory:") || has_infix (codes ":memory:") url

run_migrations-sqlite : (h : Host) → Taken migrated h (run_migrations sqlite h)
unfolding run_migrations execute_sql
run_migrations-sqlite h =
    next_step-Taken create_weighing_records (λ t. create_inbound_payloads (create_status_index t)) h
      _ _
      (step-Taken _ create_weighing_records h
        (record { rows = or_else-same h.tables.weighing_records; inbound = refl }))
      (λ h'.
        next_step-Taken create_status_index create_inbound_payloads h' _ _
          (step-Taken _ create_status_index h' (record { rows = refl; inbound = refl }))
          (λ h''.
            step-Taken _ create_inbound_payloads h''
              (record { rows = refl; inbound = or_else-same h''.tables.inbound_payloads })))

-- What opening the cache comes to.
pub record Opens (backend : DatabaseBackend) (url : Text) (h : Host) (out : Result Error Db × Host)
    : Type 0 where
  pub kept : SameRows h.tables out.1.tables
  pub opened :
      (db : Db)
      → out.0 ≡ ok db
      → (out.1.tables ≡ migrated h.tables)
        × (db.rows ≡ rows_of h.tables)
        × (db.inbound ≡ inbound_of h.tables)
        × (out.1.files ≡ (if in_memory url then h.files else with_file (sqlite_path url) h.files))
  pub stops : (e : Error) → out.0 ≡ err e → HasFault h ⊎ (backend ≢ sqlite)

module _ (parent : Text → Option Text) (cfg : DatabaseConfig) where
  -- The files where the database is opened.
  abbrev opened_files : Host → List Text
  opened_files h = if in_memory cfg.url then h.files else with_file (sqlite_path cfg.url) h.files

  ensure_sqlite_parent_dir-Aside :
      (h : Host) → Aside (opened_files h) h (ensure_sqlite_parent_dir parent cfg.url h)
  unfolding ensure_sqlite_parent_dir
  ensure_sqlite_parent_dir-Aside h = elim (Bool-cases (in_memory cfg.url)) [
    | inl memory ↦ rw (ensure_sqlite_parent_dir, memory) (done h refl refl (λ fault. fault))
    | inr disk ↦
        rw (ensure_sqlite_parent_dir, disk)
          (next_step-Aside (sqlite_path cfg.url) h _
            (create_directory-Aside (parent_of parent (sqlite_path cfg.url)) h))
  ]

  -- The connection and the migrations.
  abbrev migrate : DatabaseBackend → Host → Result Error (Unit {0}) × Host
  migrate backend h =
      next_step (step (codes "failed to connect SQLite database with SeaORM") (λ h. h) h)
        (run_migrations backend)

  migrate-sqlite : (h : Host) → Taken migrated h (migrate sqlite h)
  migrate-sqlite h =
      next_step-Taken (λ t. t) migrated h _ _
        (step-Taken (codes "failed to connect SQLite database with SeaORM") (λ t. t) h
          (SameRows-refl h.tables))
        run_migrations-sqlite

  refused :
      (backend : DatabaseBackend) (h h' : Host) (e : Error)
      → SameRows h.tables h'.tables
      → HasFault h ⊎ (backend ≢ sqlite)
      → Opens backend cfg.url h (err e, h')
  refused backend h h' e same why = record {
    kept = same;
    opened = λ db k. absurd cc;
    stops = λ x k. why;
  }

  migrated-Opens :
      (h h' : Host) (out : Result Error (Unit {0}) × Host)
      → h'.tables ≡ h.tables
      → h'.files ≡ opened_files h
      → (HasFault h' → HasFault h)
      → Taken migrated h' out
      → Opens sqlite cfg.url h (handed_out out)
  migrated-Opens h h' out same files script (taken h'' tables rows (files', _) script') =
      let here = tables ∙ ap migrated same in
      record {
        kept = rw here (migrated-SameRows h.tables);
        opened = λ db k.
            let pool : pool_of h'' ≡ db = cc in
            let tables_kept = migrated-SameRows h.tables in
            (
              here,
              sym (ap (λ (d : Db). d.rows) pool) ∙ ap rows_of here ∙ tables_kept.rows,
              sym (ap (λ (d : Db). d.inbound) pool) ∙ ap inbound_of here ∙ tables_kept.inbound,
              files' ∙ files,
            );
        stops = λ x k. absurd cc;
      }
  migrated-Opens h h' out same files script (failed h'' e rows rest fault) =
      refused sqlite h h'' e (rw (← same) rows) (inl (script fault))

  pub connect-Opens :
      (backend : DatabaseBackend) (h : Host)
      → Opens backend cfg.url h (connect parent backend cfg h)
  unfolding connect run_migrations
  connect-Opens backend h =
      prepared backend (ensure_sqlite_parent_dir parent cfg.url h)
        (ensure_sqlite_parent_dir-Aside h)
    where
      prepared :
          (backend : DatabaseBackend) (out : Result Error (Unit {0}) × Host)
          → Aside (opened_files h) h out
          → Opens backend cfg.url h (handed_out (next_step out (migrate backend)))
      prepared backend out (stopped h' e same fault) =
          refused backend h h' e (rw same (SameRows-refl h.tables)) (inl fault)
      prepared sqlite out (done h' same files script) =
          migrated-Opens h h' (migrate sqlite h') same files script (migrate-sqlite h')
      prepared (other name) out (done h' same files script) =
          elsewhere (step (codes "failed to connect SQLite database with SeaORM") (λ h. h) h') (
            step-Taken (codes "failed to connect SQLite database with SeaORM") (λ t. t) h'
              (SameRows-refl h'.tables))
        where
          elsewhere :
              (out' : Result Error (Unit {0}) × Host)
              → Taken (λ t. t) h' out'
              → Opens
                  (other name)
                  cfg.url
                  h
                  (handed_out (next_step out' (run_migrations (other name))))
          elsewhere out' (taken h'' tables rows rest script') =
              refused (other name) h h'' _ (rw (tables, same) (SameRows-refl h.tables))
                (inr (λ k. absurd cc))
          elsewhere out' (failed h'' e rows rest fault) =
              refused (other name) h h'' e (rw (← same) rows) (inl (script fault))
