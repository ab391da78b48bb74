-- ===== src/Sync.antt =====
-- sync/mod.rs: what both engines report of a cycle.
pub mod Error
pub mod Retry
pub mod Cloud
pub mod Payload
pub mod Engine
pub mod SqlServerEngine
use weighing_data_sync.Prelude.{ℕ, Bool, true, Option, none}

pub record SyncOutcome : Type 0 where
  pub fetched : ℕ
  pub synced : ℕ
  pub failed : ℕ
  pub marked_uploaded : Option Bool
  pub no_data : Bool

abbrev pub no_data : SyncOutcome
no_data = record { fetched = 0; synced = 0; failed = 0; marked_uploaded = none; no_data = true }
