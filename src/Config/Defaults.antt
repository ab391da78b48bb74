-- ===== src/Config/Defaults.antt =====
-- What a key that is absent stands for, and how a section is read.
use weighing_data_sync.Prelude.{ℕ, ◌*◌, Bool, true, false, none, Text, codes, []}
use weighing_data_sync.Config.Sections.{ServerConfig, SqlServerConfig}

abbrev pub placeholder_host : Text
placeholder_host = codes "your-sqlserver-host"

abbrev pub placeholder_password : Text
placeholder_password = codes "CHANGE_ME_VIA_ENV"

abbrev pub default_database_url : Text
default_database_url = codes "sqlite://data/weighing_sync.db"

abbrev pub default_server_bind : Text
default_server_bind = codes "0.0.0.0:8080"

abbrev pub default_server_route : Text
default_server_route = codes "/weighing-data-sync/put"

abbrev pub default_server_max_body_bytes : ℕ
default_server_max_body_bytes = 16 * 1024 * 1024

abbrev pub default_sync_source : Text
default_sync_source = codes "sqlserver"

abbrev pub default_batch_size : ℕ
default_batch_size = 100

abbrev pub default_cron : Text
default_cron = codes "0 */5 * * * *"

abbrev pub default_max_connections : ℕ
default_max_connections = 5

abbrev pub default_retry_initial_delay_ms : ℕ
default_retry_initial_delay_ms = 1_000

abbrev pub default_retry_max_delay_ms : ℕ
default_retry_max_delay_ms = 60_000

abbrev pub default_retry_max_elapsed_seconds : ℕ
default_retry_max_elapsed_seconds = 300

abbrev pub default_timeout_seconds : ℕ
default_timeout_seconds = 30

abbrev pub default_true : Bool
default_true = true

abbrev pub default_sqlserver_host : Text
default_sqlserver_host = placeholder_host

abbrev pub default_sqlserver_port : ℕ
default_sqlserver_port = 1433

abbrev pub default_sqlserver_database : Text
default_sqlserver_database = codes "yunfu"

abbrev pub default_sqlserver_username : Text
default_sqlserver_username = codes "sa"

abbrev pub default_sqlserver_password : Text
default_sqlserver_password = []

abbrev pub default_sqlserver_table : Text
default_sqlserver_table = codes "tbl_weightInfo"

abbrev pub default_sqlserver_encryption : Text
default_sqlserver_encryption = codes "off"

-- `ServerConfig::default` and `SqlServerConfig::default`.
abbrev pub default_server : ServerConfig
default_server = record {
  enabled = false;
  bind = default_server_bind;
  route = default_server_route;
  max_body_bytes = default_server_max_body_bytes;
  api_key = none;
  persist = false;
}

abbrev pub default_sqlserver : SqlServerConfig
default_sqlserver = record {
  host = default_sqlserver_host;
  port = default_sqlserver_port;
  database = default_sqlserver_database;
  username = default_sqlserver_username;
  password = default_sqlserver_password;
  table = default_sqlserver_table;
  trust_cert = default_true;
  encryption = default_sqlserver_encryption;
  mark_uploaded = default_true;
}
