-- ===== src/Config/Read/Sections.antt =====
-- What the sections `api`, `database` and `sync` are read as.
use weighing_data_sync.Prelude.{◌≡◌, none, some, codes}
use weighing_data_sync.Anyhow.{ok}
use weighing_data_sync.Config.Sections.{ApiConfig, DatabaseConfig, SyncConfig}
use weighing_data_sync.Config.Defaults.{
  default_batch_size, default_cron, default_database_url, default_max_connections,
  default_retry_initial_delay_ms, default_retry_max_delay_ms, default_retry_max_elapsed_seconds,
  default_sync_source, default_timeout_seconds, default_true,
}
use weighing_data_sync.Config.Read.{Source, read_api, read_database, read_sync}
use weighing_data_sync.Config.Read.Given.{
  Given, Describes, Converts, then_-Describes, required-Given, Given-required, default-Given,
  Given-default,
}

module _ {V : Type 0} (s : Source V) where
  -- What the section `api` is read as.
  pub record ReadsApi (v : V) (cfg : ApiConfig) : Type 0 where
    pub endpoint : Given (Converts s s.text) none (s.get v (codes "endpoint")) cfg.endpoint
    pub api_key :
        Given (Converts s s.option_text) (some none) (s.get v (codes "api_key")) cfg.api_key
    pub timeout_seconds :
        Given
          (Converts s (s.unsigned 64))
          (some default_timeout_seconds)
          (s.get v (codes "timeout_seconds"))
          cfg.timeout_seconds

  pub read_api-Reads : (v : V) → Describes (ReadsApi v) (read_api s v)
  unfolding read_api
  read_api-Reads v = then_-Describes (ReadsApi v) _ _ λ endpoint e0.
      then_-Describes (ReadsApi v) _ _ λ api_key e1.
        then_-Describes (ReadsApi v) _
          (λ x. ok (record { endpoint = endpoint; api_key = api_key; timeout_seconds = x }))
          λ timeout_seconds e2. record {
            endpoint = required-Given s _ (codes "endpoint") _ _ (λ v b h. h) e0;
            api_key = default-Given s _ _ _ _ e1;
            timeout_seconds = default-Given s _ _ _ _ e2;
          }

  pub ReadsApi-read_api : (v : V) (cfg : ApiConfig) → ReadsApi v cfg → read_api s v ≡ ok cfg
  unfolding read_api
  ReadsApi-read_api v cfg h = rw (
    read_api,
    Given-required s _ (codes "endpoint") _ _ (λ v b r. r) h.endpoint,
    Given-default s _ _ _ _ h.api_key,
    Given-default s _ _ _ _ h.timeout_seconds,
  )

  -- What the section `database` is read as.
  pub record ReadsDatabase (v : V) (cfg : DatabaseConfig) : Type 0 where
    pub url : Given (Converts s s.text) (some default_database_url) (s.get v (codes "url")) cfg.url
    pub max_connections :
        Given
          (Converts s (s.unsigned 32))
          (some default_max_connections)
          (s.get v (codes "max_connections"))
          cfg.max_connections

  pub read_database-Reads : (v : V) → Describes (ReadsDatabase v) (read_database s v)
  unfolding read_database
  read_database-Reads v = then_-Describes (ReadsDatabase v) _ _ λ url e0.
      then_-Describes (ReadsDatabase v) _ (λ x. ok (record { url = url; max_connections = x }))
        λ max_connections e1. record {
          url = default-Given s _ _ _ _ e0;
          max_connections = default-Given s _ _ _ _ e1;
        }

  pub ReadsDatabase-read_database :
      (v : V) (cfg : DatabaseConfig) → ReadsDatabase v cfg → read_database s v ≡ ok cfg
  unfolding read_database
  ReadsDatabase-read_database v cfg h =
      rw (read_database, Given-default s _ _ _ _ h.url, Given-default s _ _ _ _ h.max_connections)

  -- What the section `sync` is read as.
  pub record ReadsSync (v : V) (cfg : SyncConfig) : Type 0 where
    pub source :
        Given (Converts s s.text) (some default_sync_source) (s.get v (codes "source")) cfg.source
    pub batch_size :
        Given
          (Converts s (s.unsigned 32))
          (some default_batch_size)
          (s.get v (codes "batch_size"))
          cfg.batch_size
    pub cron : Given (Converts s s.text) (some default_cron) (s.get v (codes "cron")) cfg.cron
    pub sync_on_start :
        Given
          (Converts s s.bool)
          (some default_true)
          (s.get v (codes "sync_on_start"))
          cfg.sync_on_start
    pub retry_initial_delay_ms :
        Given
          (Converts s (s.unsigned 64))
          (some default_retry_initial_delay_ms)
          (s.get v (codes "retry_initial_delay_ms"))
          cfg.retry_initial_delay_ms
    pub retry_max_delay_ms :
        Given
          (Converts s (s.unsigned 64))
          (some default_retry_max_delay_ms)
          (s.get v (codes "retry_max_delay_ms"))
          cfg.retry_max_delay_ms
    pub retry_max_elapsed_seconds :
        Given
          (Converts s (s.unsigned 64))
          (some default_retry_max_elapsed_seconds)
          (s.get v (codes "retry_max_elapsed_seconds"))
          cfg.retry_max_elapsed_seconds

  pub read_sync-Reads : (v : V) → Describes (ReadsSync v) (read_sync s v)
  unfolding read_sync
  read_sync-Reads v = then_-Describes (ReadsSync v) _ _ λ source e0.
      then_-Describes (ReadsSync v) _ _ λ batch_size e1.
        then_-Describes (ReadsSync v) _ _ λ cron e2.
          then_-Describes (ReadsSync v) _ _ λ sync_on_start e3.
            then_-Describes (ReadsSync v) _ _ λ retry_initial_delay_ms e4.
              then_-Describes (ReadsSync v) _ _ λ retry_max_delay_ms e5.
                then_-Describes (ReadsSync v) _
                  (λ x. ok (record {
                    source = source;
                    batch_size = batch_size;
                    cron = cron;
                    sync_on_start = sync_on_start;
                    retry_initial_delay_ms = retry_initial_delay_ms;
                    retry_max_delay_ms = retry_max_delay_ms;
                    retry_max_elapsed_seconds = x;
                  }))
                  λ retry_max_elapsed_seconds e6. record {
                    source = default-Given s _ _ _ _ e0;
                    batch_size = default-Given s _ _ _ _ e1;
                    cron = default-Given s _ _ _ _ e2;
                    sync_on_start = default-Given s _ _ _ _ e3;
                    retry_initial_delay_ms = default-Given s _ _ _ _ e4;
                    retry_max_delay_ms = default-Given s _ _ _ _ e5;
                    retry_max_elapsed_seconds = default-Given s _ _ _ _ e6;
                  }

  pub ReadsSync-read_sync : (v : V) (cfg : SyncConfig) → ReadsSync v cfg → read_sync s v ≡ ok cfg
  unfolding read_sync
  ReadsSync-read_sync v cfg h = rw (
    read_sync,
    Given-default s _ _ _ _ h.source,
    Given-default s _ _ _ _ h.batch_size,
    Given-default s _ _ _ _ h.cron,
    Given-default s _ _ _ _ h.sync_on_start,
    Given-default s _ _ _ _ h.retry_initial_delay_ms,
    Given-default s _ _ _ _ h.retry_max_delay_ms,
    Given-default s _ _ _ _ h.retry_max_elapsed_seconds,
  )
