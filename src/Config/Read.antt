-- ===== src/Config/Read.antt =====
-- config.rs: how the sections are read, as the derived `Deserialize` does with its `serde(default)`.
pub mod Given
pub mod Sections
pub mod Server
pub mod SqlServer
pub mod Laws
use weighing_data_sync.Prelude.{ℕ, Bool, true, false, Option, none, some, Text, codes}
use weighing_data_sync.Anyhow.{Error, Result, ok, err, ◌>>=◌}
use weighing_data_sync.Config.Sections.{
  ApiConfig, DatabaseConfig, ServerConfig, SyncConfig, SqlServerConfig, AppConfig,
}
use weighing_data_sync.Config.Defaults.{
  default_server, default_sqlserver, default_batch_size, default_cron, default_database_url,
  default_max_connections, default_retry_initial_delay_ms, default_retry_max_delay_ms,
  default_retry_max_elapsed_seconds, default_server_bind, default_server_max_body_bytes,
  default_server_route, default_sqlserver_database, default_sqlserver_encryption,
  default_sqlserver_host, default_sqlserver_password, default_sqlserver_port,
  default_sqlserver_table, default_sqlserver_username, default_sync_source, default_timeout_seconds,
  default_true,
}

-- What is taken from the `config` crate and serde: the value of a key of a table, and its conversion to
-- the type of a field, an unsigned integer with its bits. `missing` is the error for a key that must
-- be there. Where a table has several errors, which of them is reported is serde's choice; here it is
-- the first in the order of the fields.
pub record Source (V : Type 0) : Type 0 where
  pub get : V → Text → Option V
  pub text : V → Result Error Text
  pub bool : V → Result Error Bool
  pub unsigned : (bits : ℕ) → V → Result Error ℕ
  pub option_text : V → Result Error (Option Text)
  pub missing : Text → Error

module _ {V : Type 0} (s : Source V) where
  -- A key that is there is converted.
  abbrev pub or_default : {A : Type 0} → (V → Result Error A) → A → Option V → Result Error A
  or_default convert default none = ok default
  or_default convert default (some v) = convert v

  abbrev pub required : {A : Type 0} → (V → Result Error A) → Text → Option V → Result Error A
  required convert key none = err (s.missing key)
  required convert key (some v) = convert v

  unfoldable pub read_api : V → Result Error ApiConfig
  read_api v = do
    endpoint ← required s.text (codes "endpoint") (s.get v (codes "endpoint"))
    api_key ← or_default s.option_text none (s.get v (codes "api_key"))
    timeout_seconds ←
        or_default (s.unsigned 64) default_timeout_seconds (s.get v (codes "timeout_seconds"))
    ok (record { endpoint = endpoint; api_key = api_key; timeout_seconds = timeout_seconds })

  unfoldable pub read_database : V → Result Error DatabaseConfig
  read_database v = do
    url ← or_default s.text default_database_url (s.get v (codes "url"))
    max_connections ←
        or_default (s.unsigned 32) default_max_connections (s.get v (codes "max_connections"))
    ok (record { url = url; max_connections = max_connections })

  unfoldable pub read_server : V → Result Error ServerConfig
  read_server v = do
    enabled ← or_default s.bool false (s.get v (codes "enabled"))
    bind ← or_default s.text default_server_bind (s.get v (codes "bind"))
    route ← or_default s.text default_server_route (s.get v (codes "route"))
    max_body_bytes ←
        or_default (s.unsigned 64) default_server_max_body_bytes (s.get v (codes "max_body_bytes"))
    api_key ← or_default s.option_text none (s.get v (codes "api_key"))
    persist ← or_default s.bool false (s.get v (codes "persist"))
    ok (record {
      enabled = enabled;
      bind = bind;
      route = route;
      max_body_bytes = max_body_bytes;
      api_key = api_key;
      persist = persist;
    })

  unfoldable pub read_sqlserver : V → Result Error SqlServerConfig
  read_sqlserver v = do
    host ← or_default s.text default_sqlserver_host (s.get v (codes "host"))
    port ← or_default (s.unsigned 16) default_sqlserver_port (s.get v (codes "port"))
    database ← or_default s.text default_sqlserver_database (s.get v (codes "database"))
    username ← or_default s.text default_sqlserver_username (s.get v (codes "username"))
    password ← or_default s.text default_sqlserver_password (s.get v (codes "password"))
    table ← or_default s.text default_sqlserver_table (s.get v (codes "table"))
    trust_cert ← or_default s.bool default_true (s.get v (codes "trust_cert"))
    encryption ← or_default s.text default_sqlserver_encryption (s.get v (codes "encryption"))
    mark_uploaded ← or_default s.bool default_true (s.get v (codes "mark_uploaded"))
    ok (record {
      host = host;
      port = port;
      database = database;
      username = username;
      password = password;
      table = table;
      trust_cert = trust_cert;
      encryption = encryption;
      mark_uploaded = mark_uploaded;
    })

  unfoldable pub read_sync : V → Result Error SyncConfig
  read_sync v = do
    source ← or_default s.text default_sync_source (s.get v (codes "source"))
    batch_size ← or_default (s.unsigned 32) default_batch_size (s.get v (codes "batch_size"))
    cron ← or_default s.text default_cron (s.get v (codes "cron"))
    sync_on_start ← or_default s.bool default_true (s.get v (codes "sync_on_start"))
    retry_initial_delay_ms ←
        or_default (s.unsigned 64) default_retry_initial_delay_ms
          (s.get v (codes "retry_initial_delay_ms"))
    retry_max_delay_ms ←
        or_default (s.unsigned 64) default_retry_max_delay_ms (s.get v (codes "retry_max_delay_ms"))
    retry_max_elapsed_seconds ←
        or_default (s.unsigned 64) default_retry_max_elapsed_seconds
          (s.get v (codes "retry_max_elapsed_seconds"))
    ok (record {
      source = source;
      batch_size = batch_size;
      cron = cron;
      sync_on_start = sync_on_start;
      retry_initial_delay_ms = retry_initial_delay_ms;
      retry_max_delay_ms = retry_max_delay_ms;
      retry_max_elapsed_seconds = retry_max_elapsed_seconds;
    })

  unfoldable pub read_app : V → Result Error AppConfig
  unfolding read_api read_database read_server read_sqlserver read_sync
  read_app v = do
    api ← required read_api (codes "api") (s.get v (codes "api"))
    database ← required read_database (codes "database") (s.get v (codes "database"))
    server ← or_default read_server default_server (s.get v (codes "server"))
    sqlserver ← or_default read_sqlserver default_sqlserver (s.get v (codes "sqlserver"))
    sync ← required read_sync (codes "sync") (s.get v (codes "sync"))
    ok (record {
      api = api;
      database = database;
      server = server;
      sqlserver = sqlserver;
      sync = sync;
    })
