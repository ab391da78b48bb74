-- ===== src/Daemon/Runnable.antt =====
-- An engine that the daemon builds may run on the machine.
use weighing_data_sync.Prelude.{
  ℕ, ◌^◌, ◌<◌, ◌≤◌, All, ◌≡◌, ◌∙◌, inl, inr, Bool-cases, Option, List, Text, codes,
}
use weighing_data_sync.Anyhow.{Error, Result, ok, err, Result-cases}
use weighing_data_sync.Config.{AppConfig}
use weighing_data_sync.Config.{DatabaseConfig}
use weighing_data_sync.Db.{Db}
use weighing_data_sync.Db.Models.{WeighingRecord}
use weighing_data_sync.Db.Models.Codec.{IsCodec, rfc3339_end}
use weighing_data_sync.Db.Sqlite.{IsSqlite}
use weighing_data_sync.Db.Store.{Holds}
use weighing_data_sync.Db.Connect.{Host, connect, pool_of, rows_of}
use weighing_data_sync.Db.Connect.Opens.{connect-Opens}
use weighing_data_sync.Text.{eq_ignore_ascii_case}
use weighing_data_sync.Source.SqlServer.{SqlServerSource, new}
use weighing_data_sync.Source.SqlServer.Fetch.Selected.{IsTsql}
use weighing_data_sync.Sync.Retry.Laws.{IsTimer}
use weighing_data_sync.Sync.Engine.{BatchUploadResponse}
use weighing_data_sync.Daemon.{
  Libraries, Machine, AppEngine, build_engine, choose, new_local, new_sql_server, local_engine,
  sql_server_engine, with_config, load,
}
use weighing_data_sync.Daemon.Run.{open_persist_pool, opened}
use weighing_data_sync.Daemon.Scheduler.{WellFormed}

module _ {Body S : Type 0} (lib : Libraries Body S) where
  -- What the daemon relies on: the libraries and the clock behave as documented.
  pub record IsLibraries : Type 0 where
    pub codec : IsCodec lib.codec
    pub sqlite : IsSqlite lib.sqlite
    pub tsql : IsTsql lib.tsql
    pub timer : IsTimer lib.cloud.timer
    pub decoded :
        (text : Text) (r : BatchUploadResponse)
        → lib.decode text ≡ ok r
        → All (λ i. i < 2 ^ 128) r.accepted_ids × All (λ i. i < 2 ^ 128) r.failed_ids
    pub utc_fits : (k : ℕ) (s : S) → lib.cloud.utc k s < rfc3339_end
    pub send_later :
        (endpoint : Text) (key : Option Text) (body : Body) (s : S)
        → lib.cloud.timer.now s ≤ lib.cloud.timer.now (lib.cloud.send endpoint key body s).1

  -- What the cache holds was written for records.
  abbrev pub Cached : Host → Type 0
  Cached h = (rs : List WeighingRecord) × Holds lib.codec (pool_of h) rs

  pub connect-Cached :
      (cfg : DatabaseConfig) (h : Host) → Cached h → Cached (connect lib.parent lib.backend cfg h).1
  connect-Cached cfg h (rs, held) = (
    rs,
    record {
      rows = (connect-Opens lib.parent cfg lib.backend h).kept.rows ∙ held.rows;
      records = held.records;
    },
  )

  -- An engine that was built may run on the machine.
  abbrev pub Runnable : Result Error (AppConfig × AppEngine Body S) × Machine S → Type 0
  Runnable (err e, m) = Unit
  Runnable (ok (cfg, engine), m) = WellFormed engine m

  local-Runnable :
      IsLibraries
      → (cfg : AppConfig) (m : Machine S) (out : Result Error Db × Host) → Cached out.1
      → Runnable (
        with_config lib cfg (local_engine lib cfg out).0,
        record m { host = (local_engine lib cfg out).1 },
      )
  unfolding new_local
  local-Runnable lawful cfg m (err x, h) cached = tt
  local-Runnable lawful cfg m (ok db, h) cached = elim (Result-cases (lib.client cfg.api)) [
    | inr (x, failed) ↦ rw (new_local, failed) tt
    | inl (_, built) ↦
        rw (new_local, built)
          (
            record {
              codec = lawful.codec;
              sqlite = lawful.sqlite;
              timer = lawful.timer;
              decoded = lawful.decoded;
              utc_fits = lawful.utc_fits;
              send_later = lawful.send_later;
            },
            cached,
          )
  ]

  sql_server-Runnable :
      IsLibraries
      → (cfg : AppConfig) (m : Machine S) (source : Result Error SqlServerSource)
      → Runnable (with_config lib cfg (sql_server_engine lib cfg source), m)
  unfolding new_sql_server
  sql_server-Runnable lawful cfg m (err x) = tt
  sql_server-Runnable lawful cfg m (ok source) = elim (Result-cases (lib.client cfg.api)) [
    | inr (x, failed) ↦ rw (new_sql_server, failed) tt
    | inl (_, built) ↦
        rw (new_sql_server, built)
          (record { tsql = lawful.tsql; timer = lawful.timer; send_later = lawful.send_later })
  ]

  pub build_engine-Runnable :
      IsLibraries
      → (path : Text) (m : Machine S) → Cached m.host
      → Runnable (build_engine lib path m)
  unfolding build_engine choose
  build_engine-Runnable lawful path m cached = elim (Result-cases (load (lib.config path))) [
    | inr (x, failed) ↦ rw (build_engine, failed) tt
    | inl (cfg, loads) ↦
        elim (Bool-cases (eq_ignore_ascii_case cfg.sync.source (codes "sqlserver"))) [
          | inl named ↦
              rw (build_engine, loads, choose, named)
                (sql_server-Runnable lawful cfg m (new cfg.sqlserver))
          | inr other ↦
              rw (build_engine, loads, choose, other)
                (local-Runnable lawful cfg m (connect lib.parent lib.backend cfg.database m.host)
                  (connect-Cached cfg.database m.host cached))
        ]
  ]

  pub opened-rows :
      (cfg : AppConfig) (m : Machine S)
      → rows_of (open_persist_pool lib cfg m).1.host.tables ≡ rows_of m.host.tables
  unfolding open_persist_pool
  opened-rows cfg m = elim (Bool-cases cfg.server.persist) [
    | inr off ↦ rw (open_persist_pool, off)
    | inl on ↦
        rw (open_persist_pool, on)
          (kept (connect lib.parent lib.backend cfg.database m.host)
            (connect-Opens lib.parent cfg.database lib.backend m.host).kept.rows)
  ]
    where
      kept :
          (out : Result Error Db × Host)
          → rows_of out.1.tables ≡ rows_of m.host.tables
          → rows_of (opened lib m out).1.host.tables ≡ rows_of m.host.tables
      kept (ok db, h) same = same
      kept (err x, h) same = same
