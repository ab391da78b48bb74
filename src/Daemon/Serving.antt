-- ===== src/Daemon/Serving.antt =====
-- main.rs: what `serve` comes to.
use weighing_data_sync.Prelude.{
  ◌≡◌, refl, inl, inr, Bool, true, false, if◌then◌else◌, Option, none, some, ◌++◌, Text, codes,
}
use weighing_data_sync.Anyhow.{Error, context, Result, ok, err, Result-cases}
use weighing_data_sync.Ending.{Ending, returned}
use weighing_data_sync.Config.{AppConfig}
use weighing_data_sync.Db.{Db}
use weighing_data_sync.Db.Connect.{Host, connect}
use weighing_data_sync.Server.Start.{Runs, run_http_server-Runs}
use weighing_data_sync.Daemon.{Libraries, Machine, load}
use weighing_data_sync.Daemon.Run.{open_persist_pool, opened, serve}

module _ {Body S : Type 0} (lib : Libraries Body S) where
  -- The database that the server gets, and the machine afterwards.
  pub data Pool (cfg : AppConfig) (m : Machine S) : Option Db × Machine S → Type 0 where
    not_asked : cfg.server.persist ≡ false → Pool cfg m (none, m)
    found :
        {db : Db} {h : Host}
        → cfg.server.persist ≡ true
        → connect lib.parent lib.backend cfg.database m.host ≡ (ok db, h)
        → Pool cfg m (some db, record m { host = h })
    not_found :
        {x : Error} {h : Host}
        → cfg.server.persist ≡ true
        → connect lib.parent lib.backend cfg.database m.host ≡ (err x, h)
        → Pool cfg m (none, record m { host = h })

  -- What `serve` comes to.
  pub data Serving (path : Text) (m : Machine S) : Ending × Machine S → Type 0 where
    unread :
        {x : Error}
        → load (lib.config path) ≡ err x
        → Serving path m
            (returned (err (context (codes "failed to load config from " ++ path) x)), m)
    runs :
        {cfg : AppConfig} {db : Option Db} {m' : Machine S} {r : Ending}
        → load (lib.config path) ≡ ok cfg
        → Pool cfg m (db, m')
        → Runs lib.network cfg.server db r
        → Serving path m (r, m')

  opened-Pool :
      (cfg : AppConfig) (m : Machine S) (out : Result Error Db × Host)
      → cfg.server.persist ≡ true
      → connect lib.parent lib.backend cfg.database m.host ≡ out
      → Pool cfg m (opened lib m out)
  opened-Pool cfg m (ok db, h) on opens = found on opens
  opened-Pool cfg m (err x, h) on fails = not_found on fails

  open_persist_pool-Pool :
      (cfg : AppConfig) (m : Machine S) → Pool cfg m (open_persist_pool lib cfg m)
  unfolding open_persist_pool
  open_persist_pool-Pool cfg m = by_persist cfg.server.persist refl
    where
      by_persist :
          (b : Bool)
          → cfg.server.persist ≡ b
          → Pool cfg m (
              if b
              then opened lib m (connect lib.parent lib.backend cfg.database m.host)
              else (none, m))
      by_persist false off = not_asked off
      by_persist true on =
          opened-Pool cfg m (connect lib.parent lib.backend cfg.database m.host) on refl

  pub serve-Serving : (path : Text) (m : Machine S) → Serving path m (serve lib path m)
  unfolding serve
  serve-Serving path m = elim (Result-cases (load (lib.config path))) [
    | inr (x, failed) ↦ rw (serve, failed) (unread failed)
    | inl (cfg, loads) ↦
        let (db, m') = open_persist_pool lib cfg m in
        rw (serve, loads)
          (runs loads (open_persist_pool-Pool cfg m)
            (run_http_server-Runs lib.network cfg.server db))
  ]
