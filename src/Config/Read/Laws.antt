-- ===== src/Config/Read/Laws.antt =====
-- When a configuration is read, and what it then is.
use weighing_data_sync.Prelude.{none, some, codes}
use weighing_data_sync.Config.Sections.{AppConfig}
use weighing_data_sync.Config.Defaults.{default_server, default_sqlserver}
use weighing_data_sync.Config.Read.{Source}
use weighing_data_sync.Config.Read.Sections.{ReadsApi, ReadsDatabase, ReadsSync}
use weighing_data_sync.Config.Read.Server.{ReadsServer}
use weighing_data_sync.Config.Read.SqlServer.{ReadsSqlserver}
use weighing_data_sync.Config.Read.Given.{Given}

module _ {V : Type 0} (s : Source V) where
  -- What a configuration is read as.
  pub record ReadsApp (v : V) (cfg : AppConfig) : Type 0 where
    pub api : Given (ReadsApi s) none (s.get v (codes "api")) cfg.api
    pub database : Given (ReadsDatabase s) none (s.get v (codes "database")) cfg.database
    pub server : Given (ReadsServer s) (some default_server) (s.get v (codes "server")) cfg.server
    pub sqlserver :
        Given
          (ReadsSqlserver s)
          (some default_sqlserver)
          (s.get v (codes "sqlserver"))
          cfg.sqlserver
    pub sync : Given (ReadsSync s) none (s.get v (codes "sync")) cfg.sync
