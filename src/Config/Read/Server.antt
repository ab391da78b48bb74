-- ===== src/Config/Read/Server.antt =====
-- What the section `server` is read as.
use weighing_data_sync.Prelude.{◌≡◌, false, none, some, codes}
use weighing_data_sync.Anyhow.{ok}
use weighing_data_sync.Config.Sections.{ServerConfig}
use weighing_data_sync.Config.Defaults.{
  default_server_bind, default_server_max_body_bytes, default_server_route,
}
use weighing_data_sync.Config.Read.{Source, read_server}
use weighing_data_sync.Config.Read.Given.{
  Given, Describes, Converts, then_-Describes, default-Given, Given-default,
}

module _ {V : Type 0} (s : Source V) where
  -- What the section `server` is read as.
  pub record ReadsServer (v : V) (cfg : ServerConfig) : Type 0 where
    pub enabled : Given (Converts s s.bool) (some false) (s.get v (codes "enabled")) cfg.enabled
    pub bind :
        Given (Converts s s.text) (some default_server_bind) (s.get v (codes "bind")) cfg.bind
    pub route :
        Given (Converts s s.text) (some default_server_route) (s.get v (codes "route")) cfg.route
    pub max_body_bytes :
        Given
          (Converts s (s.unsigned 64))
          (some default_server_max_body_bytes)
          (s.get v (codes "max_body_bytes"))
          cfg.max_body_bytes
    pub api_key :
        Given (Converts s s.option_text) (some none) (s.get v (codes "api_key")) cfg.api_key
    pub persist : Given (Converts s s.bool) (some false) (s.get v (codes "persist")) cfg.persist

  pub read_server-Reads : (v : V) → Describes (ReadsServer v) (read_server s v)
  unfolding read_server
  read_server-Reads v = then_-Describes (ReadsServer v) _ _ λ enabled e0.
      then_-Describes (ReadsServer v) _ _ λ bind e1. then_-Describes (ReadsServer v) _ _ λ route e2.
        then_-Describes (ReadsServer v) _ _ λ max_body_bytes e3.
          then_-Describes (ReadsServer v) _ _ λ api_key e4.
            then_-Describes (ReadsServer v) _
              (λ x. ok (record {
                enabled = enabled;
                bind = bind;
                route = route;
                max_body_bytes = max_body_bytes;
                api_key = api_key;
                persist = x;
              }))
              λ persist e5. record {
                enabled = default-Given s _ _ _ _ e0;
                bind = default-Given s _ _ _ _ e1;
                route = default-Given s _ _ _ _ e2;
                max_body_bytes = default-Given s _ _ _ _ e3;
                api_key = default-Given s _ _ _ _ e4;
                persist = default-Given s _ _ _ _ e5;
              }

  pub ReadsServer-read_server :
      (v : V) (cfg : ServerConfig) → ReadsServer v cfg → read_server s v ≡ ok cfg
  unfolding read_server
  ReadsServer-read_server v cfg h = rw (
    read_server,
    Given-default s _ _ _ _ h.enabled,
    Given-default s _ _ _ _ h.bind,
    Given-default s _ _ _ _ h.route,
    Given-default s _ _ _ _ h.max_body_bytes,
    Given-default s _ _ _ _ h.api_key,
    Given-default s _ _ _ _ h.persist,
  )
