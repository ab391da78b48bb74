-- ===== src/Daemon/Parts.antt =====
-- What the daemon does when it starts, part by part.
use weighing_data_sync.Prelude.{
  ◌≡◌, refl, inl, inr, Bool, true, false, Bool-cases, if◌then◌else◌, none, some, List, [], ◌∷◌,
}
use weighing_data_sync.Anyhow.{Error, Result, ok, err, Result-cases}
use weighing_data_sync.Ending.{Ending, returned}
use weighing_data_sync.Config.{AppConfig}
use weighing_data_sync.Db.{Db}
use weighing_data_sync.Db.Connect.{Host, connect}
use weighing_data_sync.Server.{new_state}
use weighing_data_sync.Sync.{SyncOutcome}
use weighing_data_sync.Daemon.{Libraries, Machine, AppEngine, sync_once}
use weighing_data_sync.Daemon.Run.{
  Event, server_spawned, startup_sync, scheduler_started, open_persist_pool, opened,
  start_scheduler, wait, schedule_and_wait,
}

module _ {Body S : Type 0} (lib : Libraries Body S) where
  -- What the daemon does about the server that receives.
  pub data Serves (cfg : AppConfig) (m : Machine S) : List Event → Machine S → Type 0 where
    no_server : cfg.server.enabled ≡ false → Serves cfg m [] m
    without_cache :
        cfg.server.enabled ≡ true
        → cfg.server.persist ≡ false
        → Serves cfg m (server_spawned (record { api_key = cfg.server.api_key; db = none }) ∷ []) m
    with_cache :
        {db : Db} {h : Host}
        → cfg.server.enabled ≡ true
        → cfg.server.persist ≡ true
        → connect lib.parent lib.backend cfg.database m.host ≡ (ok db, h)
        → Serves cfg m
            (server_spawned (record { api_key = cfg.server.api_key; db = some db }) ∷ [])
            (record m { host = h })
    cache_failed :
        {x : Error} {h : Host}
        → cfg.server.enabled ≡ true
        → cfg.server.persist ≡ true
        → connect lib.parent lib.backend cfg.database m.host ≡ (err x, h)
        → Serves cfg m
            (server_spawned (record { api_key = cfg.server.api_key; db = none }) ∷ [])
            (record m { host = h })

  -- What it does about a cycle at the start.
  pub data Syncs (cfg : AppConfig) (engine : AppEngine Body S) (m : Machine S)
      : List Event → Machine S → Type 0 where
    no_sync : cfg.sync.sync_on_start ≡ false → Syncs cfg engine m [] m
    ran :
        {r : Result Error SyncOutcome} {m' : Machine S}
        → cfg.sync.sync_on_start ≡ true
        → sync_once engine m ≡ some (r, m')
        → Syncs cfg engine m (startup_sync r ∷ []) m'

  -- What it does about the scheduler, and how it ends.
  pub data Waits (cfg : AppConfig) : Ending → List Event → Type 0 where
    no_scheduler : lib.cron ≡ false → Waits cfg (wait lib) []
    unscheduled :
        {x : Error}
        → lib.cron ≡ true
        → start_scheduler lib cfg ≡ err x
        → Waits cfg (returned (err x)) []
    scheduled :
        lib.cron ≡ true
        → start_scheduler lib cfg ≡ ok tt
        → Waits cfg (wait lib) (scheduler_started cfg.sync.cron ∷ [])

  pub open_persist_pool-Serves :
      (cfg : AppConfig) (m : Machine S)
      → cfg.server.enabled ≡ true
      → Serves cfg m
          (server_spawned (new_state cfg.server (open_persist_pool lib cfg m).0) ∷ [])
          (open_persist_pool lib cfg m).1
  unfolding open_persist_pool new_state
  open_persist_pool-Serves cfg m on = by_persist cfg.server.persist refl
    where
      with_out :
          cfg.server.persist ≡ true
          → (out : Result Error Db × Host)
          → connect lib.parent lib.backend cfg.database m.host ≡ out
          → Serves cfg m
              (server_spawned (new_state cfg.server (opened lib m out).0) ∷ [])
              (opened lib m out).1
      with_out persists (ok db, h) opens = with_cache on persists opens
      with_out persists (err x, h) opens = cache_failed on persists opens

      by_persist :
          (b : Bool)
          → cfg.server.persist ≡ b
          → let out =
              if b
              then opened lib m (connect lib.parent lib.backend cfg.database m.host)
              else (none, m) in
            Serves cfg m (server_spawned (new_state cfg.server out.0) ∷ []) out.1
      by_persist false same = without_cache on same
      by_persist true same = with_out same (connect lib.parent lib.backend cfg.database m.host) refl

  pub schedule_and_wait-Waits :
      (cfg : AppConfig) (m : Machine S)
      → (r : Ending) × (waiting : List Event) × (schedule_and_wait lib cfg m ≡ (r, waiting, m))
        × Waits cfg r waiting
  unfolding schedule_and_wait
  schedule_and_wait-Waits cfg m = elim (Bool-cases lib.cron) [
    | inr off ↦ (wait lib, [], rw (schedule_and_wait, off), no_scheduler off)
    | inl on ↦ elim (Result-cases (start_scheduler lib cfg)) [
      | inr (x, failed) ↦
          (returned (err x), [], rw (schedule_and_wait, on, failed), unscheduled on failed)
      | inl (_, done) ↦ (
        wait lib,
        scheduler_started cfg.sync.cron ∷ [],
        rw (schedule_and_wait, on, done),
        scheduled on done,
      )
    ]
  ]
