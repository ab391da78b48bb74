-- ===== src/Config/Sections.antt =====
-- The sections of the configuration.
use weighing_data_sync.Prelude.{ℕ, ◌*◌, Bool, Option, Text}

pub record ApiConfig : Type 0 where
  pub endpoint : Text
  pub api_key : Option Text
  pub timeout_seconds : ℕ

pub record DatabaseConfig : Type 0 where
  pub url : Text
  pub max_connections : ℕ

pub record ServerConfig : Type 0 where
  pub enabled : Bool
  pub bind : Text
  pub route : Text
  pub max_body_bytes : ℕ
  pub api_key : Option Text
  pub persist : Bool

pub record SyncConfig : Type 0 where
  pub source : Text
  pub batch_size : ℕ
  pub cron : Text
  pub sync_on_start : Bool
  pub retry_initial_delay_ms : ℕ
  pub retry_max_delay_ms : ℕ
  pub retry_max_elapsed_seconds : ℕ

pub record SqlServerConfig : Type 0 where
  pub host : Text
  pub port : ℕ
  pub database : Text
  pub username : Text
  pub password : Text
  pub table : Text
  pub trust_cert : Bool
  pub encryption : Text
  pub mark_uploaded : Bool

pub record AppConfig : Type 0 where
  pub api : ApiConfig
  pub database : DatabaseConfig
  pub server : ServerConfig
  pub sqlserver : SqlServerConfig
  pub sync : SyncConfig

-- `Duration::from_millis` and `Duration::from_secs`, in nanoseconds.
abbrev pub from_millis : ℕ → ℕ
from_millis ms = ms * 1_000_000

abbrev pub from_secs : ℕ → ℕ
from_secs s = s * 1_000_000_000

unfoldable pub timeout : ApiConfig → ℕ
timeout api = from_secs api.timeout_seconds

unfoldable pub retry_initial_delay : SyncConfig → ℕ
retry_initial_delay sync = from_millis sync.retry_initial_delay_ms

unfoldable pub retry_max_delay : SyncConfig → ℕ
retry_max_delay sync = from_millis sync.retry_max_delay_ms

unfoldable pub retry_max_elapsed : SyncConfig → ℕ
retry_max_elapsed sync = from_secs sync.retry_max_elapsed_seconds
