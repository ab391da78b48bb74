-- ===== src/Tests/Daemon.antt =====
-- The daemon on a machine where all goes well.
use weighing_data_sync.Prelude.{ℕ, ◌≡◌, true, false, some, [], ◌∷◌, any, codes, text_eq, arith}
use weighing_data_sync.Anyhow.{msg, ok, err}
use weighing_data_sync.Ending.{under_way}
use weighing_data_sync.Config.{AppConfig}
use weighing_data_sync.Config.Defaults.{default_server, default_sqlserver}
use weighing_data_sync.Db.Connect.{sqlite}
use weighing_data_sync.Daemon.{Libraries, Machine, local, build_engine}
use weighing_data_sync.Daemon.Run.{Daemon, run_daemon}
use weighing_data_sync.Daemon.Choice.{Builds, build_engine-Builds}
use weighing_data_sync.Daemon.Scheduler.{
  waiting, running, Schedule, Reachable, start, next, fires, locks, Exclusive,
}
use weighing_data_sync.Daemon.Advances.{is_unfinished, Advances, scheduler_lem}
use weighing_data_sync.Daemon.Runnable.{IsLibraries}
use weighing_data_sync.Daemon.Starts.{Starts, run_daemon-Starts}
use weighing_data_sync.Tests.Sample.{
  one_symbol, one_symbol-IsCodec, clock-IsTimer, cloud, engine, engine-IsEngine, cache, cache-Holds,
  readings,
}
use weighing_data_sync.Tests.Sorting.{sorting, sorting-IsSqlite}
use weighing_data_sync.Tests.SqlServerSample.{driver, tsql, tsql-IsTsql, world}

abbrev app : AppConfig
app = record {
  api = engine.api;
  database = record { url = codes "sqlite://data/cache.db"; max_connections = 5 };
  server = record default_server { enabled = true; persist = true };
  sqlserver = default_sqlserver;
  sync = engine.sync;
}

abbrev pub libraries : Libraries (Unit {0}) ℕ
libraries = record {
  config = λ path. ok (ok app);
  client = λ api. ok tt;
  scheduler = record {
    new_scheduler = ok tt;
    new_async = λ cron. ok tt;
    add = ok tt;
    start = ok tt;
  };
  compression = true;
  cron = true;
  network = record { parse = λ t. ok t; bind = λ t. ok 3; serve = λ listener app. under_way };
  ctrl_c = under_way;
  parent = λ path. some (codes "data");
  backend = sqlite;
  codec = one_symbol;
  sqlite = sorting;
  mass = engine.mass;
  cloud = cloud;
  requests = record {
    to_vec = λ r. ok [];
    write_all = λ t. ok t;
    finish = λ t. ok t;
    json = λ r. tt;
    with_body = λ headers t. tt;
  };
  decode = engine.decode;
  driver = driver;
  tsql = tsql;
  equal = text_eq;
  address = λ source. codes "db:1433";
  show = λ n. n ∷ [];
  requests_sql = record {
    to_vec = λ r. ok [];
    write_all = λ t. ok t;
    finish = λ t. ok t;
    json = λ r. tt;
    with_body = λ headers t. tt;
  };
  decode_sql = λ t. err (msg []);
}

pub libraries-IsLibraries : IsLibraries libraries
libraries-IsLibraries = record {
  codec = one_symbol-IsCodec;
  sqlite = sorting-IsSqlite;
  tsql = tsql-IsTsql;
  timer = clock-IsTimer;
  decoded = λ text r h. absurd (cc);
  utc_fits = λ k s. omega arith;
  send_later = λ endpoint key body s. omega arith;
}

abbrev pub machine : Machine ℕ
machine = record {
  host = record {
    directories = [];
    files = [];
    tables = record {
      weighing_records = some cache.rows;
      status_index = true;
      inbound_payloads = some [];
    };
    faults = [];
  };
  database = world.db;
  outside = 7;
}

build_engine-Builds_example :
    Builds libraries (codes "c.toml") machine (build_engine libraries (codes "c.toml") machine)
build_engine-Builds_example = build_engine-Builds libraries (codes "c.toml") machine

run_daemon-Starts_example :
    (d : Daemon libraries) × (run_daemon libraries (codes "c.toml") machine ≡ some d)
    × Starts libraries (codes "c.toml") machine d
run_daemon-Starts_example =
    run_daemon-Starts libraries libraries-IsLibraries (codes "c.toml") machine
      (readings, cache-Holds)

-- One job runs, another one waits.
abbrev busy : Schedule ℕ
busy = record { jobs = running ∷ waiting ∷ []; locked = true; machine = machine }

busy-Reachable : Reachable (local engine) machine busy
busy-Reachable =
    next
      (next (next start (fires (record { jobs = []; locked = false; machine = machine })))
        (locks [] [] machine))
      (fires (record { jobs = running ∷ []; locked = true; machine = machine }))

scheduler_lem_example :
    Exclusive (local engine) machine busy
    × (any is_unfinished busy.jobs ≡ true → Advances (local engine) busy)
scheduler_lem_example =
    scheduler_lem (local engine) machine busy (engine-IsEngine, (readings, cache-Holds))
      busy-Reachable
