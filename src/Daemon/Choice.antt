-- ===== src/Daemon/Choice.antt =====
-- Which engine a configuration gets.
use weighing_data_sync.Prelude.{
  ◌≡◌, refl, ◌⊎◌, inl, inr, Bool, true, false, Bool-cases, ◌++◌, Text, codes, map,
}
use weighing_data_sync.Anyhow.{Error, context, Result, ok, err, Result-cases}
use weighing_data_sync.Text.{eq_ignore_ascii_case, to_lower}
use weighing_data_sync.Text.Case.{eq_ignore_ascii_case_iff}
use weighing_data_sync.Config.{AppConfig}
use weighing_data_sync.Db.{Db}
use weighing_data_sync.Db.Connect.{Host, connect}
use weighing_data_sync.Source.SqlServer.{SqlServerSource, new}
use weighing_data_sync.Sync.Engine.{SyncEngine}
use weighing_data_sync.Sync.SqlServerEngine.{SqlServerSyncEngine}
use weighing_data_sync.Daemon.{
  Libraries, Machine, AppEngine, local, sql_server, load, new_local, new_sql_server, with_config,
  local_engine, choose, build_engine,
}

module _ {Body S : Type 0} (lib : Libraries Body S) where
  -- The configuration names the SQL Server, in letters of any case.
  abbrev pub NamesSqlServer : AppConfig → Type 0
  NamesSqlServer cfg = map to_lower cfg.sync.source ≡ codes "sqlserver"

  -- What building the engine comes to.
  pub data Builds (path : Text) (m : Machine S)
      : Result Error (AppConfig × AppEngine Body S) × Machine S → Type 0 where
    unread :
        {x : Error}
        → load (lib.config path) ≡ err x
        → Builds path m (err (context (codes "failed to load config from " ++ path) x), m)
    bad_source :
        {cfg : AppConfig} {x : Error}
        → load (lib.config path) ≡ ok cfg
        → NamesSqlServer cfg
        → new cfg.sqlserver ≡ err x
        → Builds path m (err x, m)
    no_cache :
        {cfg : AppConfig} {x : Error} {h : Host}
        → load (lib.config path) ≡ ok cfg
        → (NamesSqlServer cfg → ⊥)
        → connect lib.parent lib.backend cfg.database m.host ≡ (err x, h)
        → Builds path m (err x, record m { host = h })
    no_client :
        {cfg : AppConfig} {x : Error} {h : Host}
        → load (lib.config path) ≡ ok cfg
        → lib.client cfg.api ≡ err x
        → (NamesSqlServer cfg → h ≡ m.host)
        → Builds path m
            (err (context (codes "failed to build HTTP client") x), record m { host = h })
    reads_sql_server :
        {cfg : AppConfig} {e : SqlServerSyncEngine Body S}
        → load (lib.config path) ≡ ok cfg
        → NamesSqlServer cfg
        → new cfg.sqlserver ≡ ok e.source
        → (e.api ≡ cfg.api) × (e.sync ≡ cfg.sync)
        → Builds path m (ok (cfg, sql_server e), m)
    reads_cache :
        {cfg : AppConfig} {e : SyncEngine Body S} {db : Db} {h : Host}
        → load (lib.config path) ≡ ok cfg
        → (NamesSqlServer cfg → ⊥)
        → connect lib.parent lib.backend cfg.database m.host ≡ (ok db, h)
        → (e.api ≡ cfg.api) × (e.sync ≡ cfg.sync)
        → Builds path m (ok (cfg, local e), record m { host = h })

  -- The test of `build_engine`.
  named-cases :
      (cfg : AppConfig)
      → (NamesSqlServer cfg × (eq_ignore_ascii_case cfg.sync.source (codes "sqlserver") ≡ true))
        ⊎ ((NamesSqlServer cfg → ⊥)
            × (eq_ignore_ascii_case cfg.sync.source (codes "sqlserver") ≡ false))
  unfolding to_lower
  named-cases cfg =
      let (to, from) = eq_ignore_ascii_case_iff cfg.sync.source (codes "sqlserver") in
      elim (Bool-cases (eq_ignore_ascii_case cfg.sync.source (codes "sqlserver"))) [
        | inl same ↦ inl (to same, same)
        | inr other ↦ inr (λ named. refute (from named) other, other)
      ]
    where
      refute : {b : Bool} → b ≡ true → b ≡ false → ⊥
      refute t f = absurd cc

  module _ (path : Text) (m : Machine S) (cfg : AppConfig)
      (loads : load (lib.config path) ≡ ok cfg) where
    with_source :
        (source : SqlServerSource)
        → NamesSqlServer cfg
        → new cfg.sqlserver ≡ ok source
        → Builds path m (with_config lib cfg (new_sql_server lib cfg source), m)
    unfolding new_sql_server
    with_source source named made = elim (Result-cases (lib.client cfg.api)) [
      | inr (x, failed) ↦ rw (new_sql_server, failed) (no_client loads failed (λ k. refl))
      | inl (_, built) ↦ rw (new_sql_server, built) (reads_sql_server loads named made (refl, refl))
    ]

    with_cache :
        (out : Result Error Db × Host)
        → (NamesSqlServer cfg → ⊥)
        → connect lib.parent lib.backend cfg.database m.host ≡ out
        → Builds path m (
          with_config lib cfg (local_engine lib cfg out).0,
          record m { host = (local_engine lib cfg out).1 },
        )
    unfolding new_local
    with_cache (err x, h) other opens = no_cache loads other opens
    with_cache (ok db, h) other opens = elim (Result-cases (lib.client cfg.api)) [
      | inr (x, failed) ↦ rw (new_local, failed) (no_client loads failed (λ k. absurd (other k)))
      | inl (_, built) ↦ rw (new_local, built) (reads_cache loads other opens (refl, refl))
    ]

    choose-Builds : Builds path m (choose lib cfg m)
    unfolding choose
    choose-Builds = elim (named-cases cfg) [
      | inl (named, same) ↦ elim (Result-cases (new cfg.sqlserver)) [
        | inr (x, refused) ↦ rw (choose, same, refused) (bad_source loads named refused)
        | inl (source, made) ↦ rw (choose, same, made) (with_source source named made)
      ]
      | inr (other, differs) ↦
          rw (choose, differs)
            (with_cache (connect lib.parent lib.backend cfg.database m.host) other refl)
    ]

  -- Building the engine ends in one of six ways. The engine reads the SQL Server exactly if the
  -- configuration names it, in letters of any case, and then the local cache is not touched; else it
  -- reads the cache, which is opened first. It has the configuration's endpoint and its tuning. An
  -- error is that of the configuration, of the source, of the cache or of the HTTP client.
  pub build_engine-Builds : (path : Text) (m : Machine S) → Builds path m (build_engine lib path m)
  unfolding build_engine
  build_engine-Builds path m = elim (Result-cases (load (lib.config path))) [
    | inr (x, failed) ↦ rw (build_engine, failed) (unread failed)
    | inl (cfg, loads) ↦ rw (build_engine, loads) (choose-Builds path m cfg loads)
  ]
