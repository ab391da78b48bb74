-- ===== src/Config.antt =====
-- config.rs: the configuration, its defaults and its checks.
-- A section is read from a `Raw…` record, in which a key that is absent is `none`; the file format
-- and the environment variables are the `config` library's.
pub mod Sections
pub mod Defaults
pub mod Read
pub mod SqlServer
pub use Sections.{ApiConfig, DatabaseConfig, ServerConfig, SyncConfig, SqlServerConfig, AppConfig}
