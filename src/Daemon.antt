-- ===== src/Daemon.antt =====
-- main.rs: the choice of the engine, and what the daemon does when it starts. Logging is left out.
pub mod Run
pub mod Choice
pub mod Scheduler
pub mod Advances
pub mod Runnable
pub mod Parts
pub mod Starts
pub mod Command
pub mod Main
pub mod Serving
use weighing_data_sync.Prelude.{
  ℕ, Bool, true, false, if◌then◌else◌, Option, none, some, List, [], ◌∷◌, ◌++◌, Text, codes,
}
use weighing_data_sync.Anyhow.{Error, context, Result, ok, err, with_context}
use weighing_data_sync.Text.{eq_ignore_ascii_case}
use weighing_data_sync.Config.{ApiConfig, AppConfig}
use weighing_data_sync.Server.Start.{Network}
use weighing_data_sync.Ending.{Ending}
use weighing_data_sync.Db.{Db}
use weighing_data_sync.Db.Models.{Mass}
use weighing_data_sync.Db.Models.Codec.{Codec}
use weighing_data_sync.Db.Sqlite.{Sqlite}
use weighing_data_sync.Db.Connect.{Host, DatabaseBackend, connect, pool_of}
use weighing_data_sync.Source.SqlServer.{Database, SqlServerSource, new}
use weighing_data_sync.Source.SqlServer.Row.{Driver}
use weighing_data_sync.Source.SqlServer.Fetch.{Tsql}
use weighing_data_sync.Sync.{SyncOutcome}
use weighing_data_sync.Sync.Cloud.{Cloud}
use weighing_data_sync.Sync.Payload.{Requests, build_upload_request, build_sql_server_request}
use weighing_data_sync.Sync.Engine as local_sync
use weighing_data_sync.Sync.Engine.{SyncEngine, BatchUploadRequest, BatchUploadResponse}
use weighing_data_sync.Sync.SqlServerEngine as sql_sync
use weighing_data_sync.Sync.SqlServerEngine.{
  SqlServerSyncEngine, SqlServerUploadRequest, SqlServerUploadResponse,
}

-- The cron library: a scheduler is made, a job is made for a cron expression and added, and the
-- scheduler is started.
pub record JobScheduler : Type 0 where
  pub new_scheduler : Result Error (Unit {0})
  pub new_async : Text → Result Error (Unit {0})
  pub add : Result Error (Unit {0})
  pub start : Result Error (Unit {0})

-- What the daemon takes from other libraries. `config` builds the configuration from its layers and
-- deserializes it (Config.Read says how the sections are read), `client` builds an HTTP client;
-- `compression` and `cron` are features of the build.
pub record Libraries (Body S : Type 0) : Type 0 where
  pub config : Text → Result Error (Result Error AppConfig)
  pub client : ApiConfig → Result Error (Unit {0})
  pub scheduler : JobScheduler
  pub network : Network
  pub compression : Bool
  pub cron : Bool
  pub ctrl_c : Ending
  pub parent : Text → Option Text
  pub backend : DatabaseBackend
  pub codec : Codec
  pub sqlite : Sqlite
  pub mass : Mass
  pub cloud : Cloud Body S
  pub requests : Requests BatchUploadRequest Body
  pub decode : Text → Result Error BatchUploadResponse
  pub driver : Driver
  pub tsql : Tsql
  pub equal : Text → Text → Bool
  pub address : SqlServerSource → Text
  pub show : ℕ → Text
  pub requests_sql : Requests SqlServerUploadRequest Body
  pub decode_sql : Text → Result Error SqlServerUploadResponse

-- `AppConfig::load`.
unfoldable pub load : Result Error (Result Error AppConfig) → Result Error AppConfig
load (err e) = err (context (codes "failed to build configuration") e)
load (ok read) = with_context (codes "failed to deserialize configuration") read

-- The local cache, the SQL Server and what is outside.
pub record Machine (S : Type 0) : Type 0 where
  pub host : Host
  pub database : Database
  pub outside : S

pub data AppEngine (Body S : Type 0) : Type 0 where
  local : SyncEngine Body S → AppEngine Body S
  sql_server : SqlServerSyncEngine Body S → AppEngine Body S

-- The host after its pool was used.
abbrev pub with_pool : Db → Host → Host
with_pool db h = record h {
  tables = record {
    weighing_records = some db.rows;
    status_index = h.tables.status_index;
    inbound_payloads = some db.inbound;
  };
  faults = db.faults;
}

module _ {S : Type 0} where
  abbrev pub after_local :
      Machine S
      → Option (Result Error SyncOutcome × local_sync.World S)
      → Option (Result Error SyncOutcome × Machine S)
  after_local m none = none
  after_local m (some (r, w)) =
      some (r, record m { host = with_pool w.db m.host; outside = w.outside })

  abbrev pub after_sql :
      Machine S
      → Option (Result Error SyncOutcome × sql_sync.World S)
      → Option (Result Error SyncOutcome × Machine S)
  after_sql m none = none
  after_sql m (some (r, w)) = some (r, record m { database = w.db; outside = w.outside })

module _ {Body S : Type 0} where
  -- `AppEngine::sync_once`; `none` means that the fuel of a retry loop ran out.
  unfoldable pub sync_once :
      AppEngine Body S → Machine S → Option (Result Error SyncOutcome × Machine S)
  sync_once (local e) m =
      after_local m (local_sync.sync_once e (record { db = pool_of m.host; outside = m.outside }))
  sync_once (sql_server e) m =
      after_sql m (sql_sync.sync_once e (record { db = m.database; outside = m.outside }))

module _ {Body S : Type 0} (lib : Libraries Body S) where
  -- `SyncEngine::new` and `SqlServerSyncEngine::new`.
  unfoldable pub new_local : AppConfig → Result Error (AppEngine Body S)
  unfolding build_upload_request
  new_local cfg = elim (lib.client cfg.api) [
    | err e ↦ err (context (codes "failed to build HTTP client") e)
    | ok _ ↦ ok (
        local (record {
          codec = lib.codec;
          sqlite = lib.sqlite;
          mass = lib.mass;
          cloud = lib.cloud;
          build = build_upload_request lib.requests lib.compression;
          decode = lib.decode;
          api = cfg.api;
          sync = cfg.sync;
        }))
  ]

  unfoldable pub new_sql_server : AppConfig → SqlServerSource → Result Error (AppEngine Body S)
  unfolding build_sql_server_request
  new_sql_server cfg source = elim (lib.client cfg.api) [
    | err e ↦ err (context (codes "failed to build HTTP client") e)
    | ok _ ↦ ok (
        sql_server (record {
          driver = lib.driver;
          tsql = lib.tsql;
          equal = lib.equal;
          address = lib.address source;
          show = lib.show;
          cloud = lib.cloud;
          build = build_sql_server_request lib.requests_sql lib.compression;
          decode = lib.decode_sql;
          api = cfg.api;
          sync = cfg.sync;
          source = source;
        }))
  ]

  abbrev pub with_config :
      AppConfig → Result Error (AppEngine Body S) → Result Error (AppConfig × AppEngine Body S)
  with_config cfg (err e) = err e
  with_config cfg (ok engine) = ok (cfg, engine)

  abbrev pub sql_server_engine :
      AppConfig → Result Error SqlServerSource → Result Error (AppEngine Body S)
  sql_server_engine cfg (err e) = err e
  sql_server_engine cfg (ok source) = new_sql_server cfg source

  abbrev pub local_engine :
      AppConfig → Result Error Db × Host → Result Error (AppEngine Body S) × Host
  local_engine cfg (err e, h) = (err e, h)
  local_engine cfg (ok _, h) = (new_local cfg, h)

  -- The engine of a configuration.
  unfoldable pub choose :
      AppConfig → Machine S → Result Error (AppConfig × AppEngine Body S) × Machine S
  unfolding eq_ignore_ascii_case new connect new_sql_server new_local
  choose cfg m =
      if eq_ignore_ascii_case cfg.sync.source (codes "sqlserver")
      then (with_config cfg (sql_server_engine cfg (new cfg.sqlserver)), m)
      else let (engine, h) =
          local_engine cfg (connect lib.parent lib.backend cfg.database m.host) in
        (with_config cfg engine, record m { host = h })

  unfoldable pub build_engine :
      Text → Machine S → Result Error (AppConfig × AppEngine Body S) × Machine S
  unfolding choose load
  build_engine path m = elim (load (lib.config path)) [
    | err e ↦ (err (context (codes "failed to load config from " ++ path) e), m)
    | ok cfg ↦ choose cfg m
  ]
