-- ===== src/Config/Read/SqlServer.antt =====
-- What the section `sqlserver` is read as.
use weighing_data_sync.Prelude.{◌≡◌, some, codes}
use weighing_data_sync.Anyhow.{ok}
use weighing_data_sync.Config.Sections.{SqlServerConfig}
use weighing_data_sync.Config.Defaults.{
  default_sqlserver_database, default_sqlserver_encryption, default_sqlserver_host,
  default_sqlserver_password, default_sqlserver_port, default_sqlserver_table,
  default_sqlserver_username, default_true,
}
use weighing_data_sync.Config.Read.{Source, read_sqlserver}
use weighing_data_sync.Config.Read.Given.{
  Given, Describes, Converts, then_-Describes, default-Given, Given-default,
}

module _ {V : Type 0} (s : Source V) where
  -- What the section `sqlserver` is read as.
  pub record ReadsSqlserver (v : V) (cfg : SqlServerConfig) : Type 0 where
    pub host :
        Given (Converts s s.text) (some default_sqlserver_host) (s.get v (codes "host")) cfg.host
    pub port :
        Given
          (Converts s (s.unsigned 16))
          (some default_sqlserver_port)
          (s.get v (codes "port"))
          cfg.port
    pub database :
        Given
          (Converts s s.text)
          (some default_sqlserver_database)
          (s.get v (codes "database"))
          cfg.database
    pub username :
        Given
          (Converts s s.text)
          (some default_sqlserver_username)
          (s.get v (codes "username"))
          cfg.username
    pub password :
        Given
          (Converts s s.text)
          (some default_sqlserver_password)
          (s.get v (codes "password"))
          cfg.password
    pub table :
        Given (Converts s s.text) (some default_sqlserver_table) (s.get v (codes "table")) cfg.table
    pub trust_cert :
        Given (Converts s s.bool) (some default_true) (s.get v (codes "trust_cert")) cfg.trust_cert
    pub encryption :
        Given
          (Converts s s.text)
          (some default_sqlserver_encryption)
          (s.get v (codes "encryption"))
          cfg.encryption
    pub mark_uploaded :
        Given
          (Converts s s.bool)
          (some default_true)
          (s.get v (codes "mark_uploaded"))
          cfg.mark_uploaded

  pub read_sqlserver-Reads : (v : V) → Describes (ReadsSqlserver v) (read_sqlserver s v)
  unfolding read_sqlserver
  read_sqlserver-Reads v = then_-Describes (ReadsSqlserver v) _ _ λ host e0.
      then_-Describes (ReadsSqlserver v) _ _ λ port e1.
        then_-Describes (ReadsSqlserver v) _ _ λ database e2.
          then_-Describes (ReadsSqlserver v) _ _ λ username e3.
            then_-Describes (ReadsSqlserver v) _ _ λ password e4.
              then_-Describes (ReadsSqlserver v) _ _ λ table e5.
                then_-Describes (ReadsSqlserver v) _ _ λ trust_cert e6.
                  then_-Describes (ReadsSqlserver v) _ _ λ encryption e7.
                    then_-Describes (ReadsSqlserver v) _
                      (λ x. ok (record {
                        host = host;
                        port = port;
                        database = database;
                        username = username;
                        password = password;
                        table = table;
                        trust_cert = trust_cert;
                        encryption = encryption;
                        mark_uploaded = x;
                      }))
                      λ mark_uploaded e8. record {
                        host = default-Given s _ _ _ _ e0;
                        port = default-Given s _ _ _ _ e1;
                        database = default-Given s _ _ _ _ e2;
                        username = default-Given s _ _ _ _ e3;
                        password = default-Given s _ _ _ _ e4;
                        table = default-Given s _ _ _ _ e5;
                        trust_cert = default-Given s _ _ _ _ e6;
                        encryption = default-Given s _ _ _ _ e7;
                        mark_uploaded = default-Given s _ _ _ _ e8;
                      }

  pub ReadsSqlserver-read_sqlserver :
      (v : V) (cfg : SqlServerConfig) → ReadsSqlserver v cfg → read_sqlserver s v ≡ ok cfg
  unfolding read_sqlserver
  ReadsSqlserver-read_sqlserver v cfg h = rw (
    read_sqlserver,
    Given-default s _ _ _ _ h.host,
    Given-default s _ _ _ _ h.port,
    Given-default s _ _ _ _ h.database,
    Given-default s _ _ _ _ h.username,
    Given-default s _ _ _ _ h.password,
    Given-default s _ _ _ _ h.table,
    Given-default s _ _ _ _ h.trust_cert,
    Given-default s _ _ _ _ h.encryption,
    Given-default s _ _ _ _ h.mark_uploaded,
  )
