-- ===== src/Daemon/Main/Keeps.antt =====
-- Every part of the daemon leaves a cache whose rows were written for records.
use weighing_data_sync.Prelude.{
  ◌≡◌, refl, sym, ◌∙◌, ap, subst, inl, inr, Bool-cases, Option, none, some, List, Text, codes,
}
use weighing_data_sync.Anyhow.{Error, Result, ok, err, Result-cases}
use weighing_data_sync.Text.{eq_ignore_ascii_case}
use weighing_data_sync.Config.{AppConfig}
use weighing_data_sync.Db.{Db}
use weighing_data_sync.Db.Store.{Holds}
use weighing_data_sync.Db.Connect.{Host, connect, pool_of}
use weighing_data_sync.Source.SqlServer.{SqlServerSource, new}
use weighing_data_sync.Sync.{SyncOutcome}
use weighing_data_sync.Daemon.{
  Libraries, Machine, AppEngine, local, sql_server, build_engine, choose, new_local, new_sql_server,
  local_engine, sql_server_engine, with_config, load, sync_once, after_sql,
}
use weighing_data_sync.Sync.SqlServerEngine as sql_sync
use weighing_data_sync.Daemon.Run.{Event, Daemon}
use weighing_data_sync.Daemon.Runnable.{
  IsLibraries, Cached, connect-Cached, Runnable, build_engine-Runnable,
}
use weighing_data_sync.Daemon.Scheduler.{WellFormed, sync_once_returns}
use weighing_data_sync.Daemon.Parts.{
  Serves, no_server, without_cache, with_cache, cache_failed, Syncs, no_sync, ran,
}
use weighing_data_sync.Daemon.Starts.{Starts, unbuilt, started}

module _ {Body S : Type 0} (lib : Libraries Body S) where
  -- An engine on the cache writes and reads it with the program's formats.
  abbrev pub OfLibrary : Result Error (AppConfig × AppEngine Body S) → Type 0
  OfLibrary (err e) = Unit
  OfLibrary (ok (cfg, local e)) = e.codec ≡ lib.codec
  OfLibrary (ok (cfg, sql_server e)) = Unit

  local-OfLibrary :
      (cfg : AppConfig) (out : Result Error Db × Host)
      → OfLibrary (with_config lib cfg (local_engine lib cfg out).0)
        × ((local_engine lib cfg out).1 ≡ out.1)
  unfolding new_local
  local-OfLibrary cfg (err x, h) = (tt, refl)
  local-OfLibrary cfg (ok db, h) = elim (Result-cases (lib.client cfg.api)) [
    | inr (x, failed) ↦ rw (new_local, failed) (tt, refl)
    | inl (_, built) ↦ rw (new_local, built) (refl, refl)
  ]

  sql_server-OfLibrary :
      (cfg : AppConfig) (source : Result Error SqlServerSource)
      → OfLibrary (with_config lib cfg (sql_server_engine lib cfg source))
  unfolding new_sql_server
  sql_server-OfLibrary cfg (err x) = tt
  sql_server-OfLibrary cfg (ok source) = elim (Result-cases (lib.client cfg.api)) [
    | inr (x, failed) ↦ rw (new_sql_server, failed) tt
    | inl (_, built) ↦ rw (new_sql_server, built) tt
  ]

  pub build_engine-Cached :
      (path : Text) (m : Machine S)
      → Cached lib m.host
      → OfLibrary (build_engine lib path m).0 × Cached lib (build_engine lib path m).1.host
  unfolding build_engine choose
  build_engine-Cached path m cached = elim (Result-cases (load (lib.config path))) [
    | inr (x, failed) ↦ rw (build_engine, failed) (tt, cached)
    | inl (cfg, loads) ↦
        elim (Bool-cases (eq_ignore_ascii_case cfg.sync.source (codes "sqlserver"))) [
          | inl named ↦
              rw (build_engine, loads, choose, named)
                (sql_server-OfLibrary cfg (new cfg.sqlserver), cached)
          | inr other ↦
              let out = connect lib.parent lib.backend cfg.database m.host in
              let (formats, host) = local-OfLibrary cfg out in
              rw (build_engine, loads, choose, other)
                (
                  formats,
                  subst (Cached lib) (sym host) (connect-Cached lib cfg.database m.host cached),
                )
        ]
  ]

  abbrev host_of : Host → Option (Result Error SyncOutcome × Machine S) → Host
  host_of h none = h
  host_of h (some (r, m')) = m'.host

  -- A cycle returns and keeps the cache.
  pub sync_once-Cached :
      (cfg : AppConfig) (engine : AppEngine Body S) (m : Machine S)
      → OfLibrary (ok (cfg, engine))
      → WellFormed engine m
      → Cached lib m.host
      → (r : Result Error SyncOutcome) × (m' : Machine S) × (sync_once engine m ≡ some (r, m'))
        × Cached lib m'.host
  unfolding sync_once
  sync_once-Cached cfg (local e) m formats runs cached =
      let (r, m', returned, (_, (rs, held))) = sync_once_returns (local e) m runs in
      (r, m', returned, (rs, subst (λ c. Holds c (pool_of m'.host) rs) formats held))
  sync_once-Cached cfg (sql_server e) m formats runs cached =
      let (r, m', returned, _) = sync_once_returns (sql_server e) m runs in
      (
        r,
        m',
        returned,
        same_host (sql_sync.sync_once e (record { db = m.database; outside = m.outside })) r m'
            returned,
      )
    where
      same_host :
          (out : Option (Result Error SyncOutcome × sql_sync.World S))
          (r : Result Error SyncOutcome) (m' : Machine S)
          → after_sql m out ≡ some (r, m')
          → Cached lib m'.host
      same_host none r m' returned = absurd cc
      same_host (some (r', w)) r m' returned =
          subst (Cached lib) (ap (host_of m.host) returned) cached

  Serves-Cached :
      (cfg : AppConfig) (m m' : Machine S) (events : List Event)
      → Cached lib m.host
      → Serves lib cfg m events m'
      → Cached lib m'.host
  Serves-Cached cfg m m' events cached (no_server off) = cached
  Serves-Cached cfg m m' events cached (without_cache on off) = cached
  Serves-Cached cfg m m' events cached (with_cache on persists opens) =
      subst (Cached lib) (ap (λ o. o.1) opens) (connect-Cached lib cfg.database m.host cached)
  Serves-Cached cfg m m' events cached (cache_failed on persists opens) =
      subst (Cached lib) (ap (λ o. o.1) opens) (connect-Cached lib cfg.database m.host cached)

  pub again-WellFormed :
      (cfg : AppConfig) (engine : AppEngine Body S) (m m' : Machine S)
      → OfLibrary (ok (cfg, engine))
      → WellFormed engine m
      → Cached lib m'.host
      → WellFormed engine m'
  again-WellFormed cfg (local e) m m' formats (lawful, _) (rs, held) =
      (lawful, (rs, subst (λ c. Holds c (pool_of m'.host) rs) (sym formats) held))
  again-WellFormed cfg (sql_server e) m m' formats lawful cached = lawful

  -- A cycle that was run kept the cache.
  pub went-Cached :
      (cfg : AppConfig) (engine : AppEngine Body S) (m m' : Machine S)
      (r : Result Error SyncOutcome)
      → OfLibrary (ok (cfg, engine))
      → WellFormed engine m
      → Cached lib m.host
      → sync_once engine m ≡ some (r, m')
      → Cached lib m'.host
  went-Cached cfg engine m m' r formats runs cached went =
      let (r_1, m_1, returned, kept) = sync_once-Cached cfg engine m formats runs cached in
      subst (Cached lib) (ap (host_of m.host) (sym returned ∙ went)) kept

  Syncs-Cached :
      (cfg : AppConfig) (engine : AppEngine Body S) (m m' : Machine S) (events : List Event)
      → OfLibrary (ok (cfg, engine))
      → WellFormed engine m
      → Cached lib m.host
      → Syncs lib cfg engine m events m'
      → Cached lib m'.host
  Syncs-Cached cfg engine m m' events formats runs cached (no_sync off) = cached
  Syncs-Cached cfg engine m m' events formats runs cached (ran {r} on went) =
      went-Cached cfg engine m m' r formats runs cached went

  pub Starts-Cached :
      IsLibraries lib
      → (path : Text) (m : Machine S) (d : Daemon lib) → Cached lib m.host
      → Starts lib path m d
      → Cached lib d.2.host
  Starts-Cached lawful path m (r, events, m') cached (unbuilt built) =
      subst (Cached lib) (ap (λ o. o.1.host) built) (build_engine-Cached path m cached).1
  Starts-Cached lawful path m (r, events, m') cached
        (started {cfg} {engine} {m_1} {m_2} {serving} {syncing} built serves syncs waits) =
      let (formats, kept) = build_engine-Cached path m cached in
      let cached_1 = subst (Cached lib) (ap (λ o. o.1.host) built) kept in
      let cached_2 = Serves-Cached cfg m_1 m_2 serving cached_1 serves in
      let formats_ = subst OfLibrary (ap (λ o. o.0) built) formats in
      let runs = subst (Runnable lib) built (build_engine-Runnable lib lawful path m cached) in
      Syncs-Cached cfg engine m_2 m' syncing formats_
        (again-WellFormed cfg engine m_1 m_2 formats_ runs cached_2) cached_2 syncs
