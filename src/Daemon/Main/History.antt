-- ===== src/Daemon/Main/History.antt =====
-- Whatever the program has done before, with the cycles that its schedulers ran.
use weighing_data_sync.Prelude.{◌≡◌, some, unwrap_or}
use weighing_data_sync.Anyhow.{ok}
use weighing_data_sync.Config.{AppConfig}
use weighing_data_sync.Daemon.{Libraries, Machine, AppEngine, build_engine}
use weighing_data_sync.Daemon.Command.{Command, Cli}
use weighing_data_sync.Daemon.Runnable.{Runnable}
use weighing_data_sync.Daemon.Scheduler.{Schedule, Reachable}
use weighing_data_sync.Daemon.Main.{Platform, Reached, main}

module _ {Body S W K M H : Type 0} (lib : Libraries Body S) (platform : Platform W K M H) where
  -- What the program can have done to a machine and a system: calls, each where the last one left
  -- off, and after the call of a daemon any cycles that its scheduler ran.
  pub data History (m : Machine S) (w : W) : Machine S → W → Type 0 where
    nothing_yet : History m w m w
    called :
        {m' : Machine S} {w' : W} {out : Reached S W} (cli : Cli)
        → History m w m' w'
        → main lib platform cli m' w' ≡ some out
        → History m w out.machine out.system
    scheduled :
        {m' : Machine S} {w' : W} {out : Reached S W} {cfg : AppConfig} {engine : AppEngine Body S}
        {m_1 : Machine S} {s : Schedule S} (cli : Cli)
        → History m w m' w'
        → unwrap_or cli.command Command.run ≡ Command.run
        → main lib platform cli m' w' ≡ some out
        → build_engine lib cli.config m' ≡ (ok (cfg, engine), m_1)
        → Reachable engine out.machine s
        → History m w s.machine out.system
