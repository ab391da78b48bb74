-- ===== src/Tests/Sample.antt =====
-- A codec, a clock, an endpoint and an engine over them, which behave as the theorems ask.
use weighing_data_sync.Prelude.{
  ◌≡◌, leb, ℕ, ◌+◌, refl, min, true, none, List, [], ◌∷◌, Text, codes, arith, map,
}
use weighing_data_sync.Anyhow.{Error, msg, Result, ok, err}
use weighing_data_sync.Text.Order.{text_le}
use weighing_data_sync.Db.{Db}
use weighing_data_sync.Db.Models.{WeighingRecord, to_model}
use weighing_data_sync.Db.Models.Codec.{Codec, IsCodec}
use weighing_data_sync.Db.Models.WeightUnit
use weighing_data_sync.Db.Models.SyncStatus.{SyncStatus}
use weighing_data_sync.Db.Store.{Holds}
use weighing_data_sync.Sync.Retry.{Timer}
use weighing_data_sync.Sync.Retry.Laws.{IsTimer}
use weighing_data_sync.Sync.Cloud.{Cloud}
use weighing_data_sync.Sync.Engine.{SyncEngine}
use weighing_data_sync.Sync.Engine.Cycle.{IsEngine}
use weighing_data_sync.Tests.Sorting.{sorting, sorting-IsSqlite}

-- A text of one symbol stands for a number.
abbrev pub read_one : Text → Result Error ℕ
read_one [] = err (msg [])
read_one (x ∷ []) = ok x
read_one (x ∷ y ∷ s) = err (msg [])

abbrev pub one_symbol : Codec
one_symbol = record {
  uuid_to_string = λ u. u ∷ [];
  uuid_parse = read_one;
  to_rfc3339 = λ t. t ∷ [];
  parse_from_rfc3339 = read_one;
}

symbol_le : (s t : ℕ) → text_le (s ∷ []) (t ∷ []) ≡ leb s t
unfolding text_le
symbol_le s t = ground arith

pub one_symbol-IsCodec : IsCodec one_symbol
one_symbol-IsCodec = record {
  uuid_round_trip = λ u h. refl;
  rfc3339_round_trip = λ t h. refl;
  rfc3339_sorts = λ s t h k. symbol_le s t;
}

-- The state is the time.
abbrev pub clock : Timer ℕ
clock = record { now = λ s. s; sleep = λ d s. s + d }

pub clock-IsTimer : IsTimer clock
clock-IsTimer = record { sleeps = λ d s. omega arith }

-- It takes a second to send, and the answer is always 204.
abbrev pub cloud : Cloud (Unit {0}) ℕ
cloud = record {
  timer = clock;
  utc = λ k s. min s 1000;
  send = λ endpoint key body s. (ok (record { status = 204; body = ok [] }), s + 1_000_000_000);
  status_text = λ n. [];
}

abbrev pub engine : SyncEngine (Unit {0}) ℕ
engine = record {
  codec = one_symbol;
  sqlite = sorting;
  mass = record {
    of_kilogram = λ x. x;
    of_pound = λ x. x;
    to_kilogram = λ x. x;
    to_pound = λ x. x;
  };
  cloud = cloud;
  build = λ r. ok tt;
  decode = λ t. err (msg []);
  api = record { endpoint = codes "https://c"; api_key = none; timeout_seconds = 30 };
  sync = record {
    source = codes "local";
    batch_size = 1;
    cron = codes "0 */5 * * * *";
    sync_on_start = true;
    retry_initial_delay_ms = 1000;
    retry_max_delay_ms = 60_000;
    retry_max_elapsed_seconds = 300;
  };
}

pub engine-IsEngine : IsEngine engine
engine-IsEngine = record {
  codec = one_symbol-IsCodec;
  sqlite = sorting-IsSqlite;
  timer = clock-IsTimer;
  decoded = λ text r h. absurd (cc);
  utc_fits = λ k s. omega arith;
  send_later = λ endpoint key body s. omega arith;
}

abbrev pub reading : ℕ → ℕ → SyncStatus → WeighingRecord
reading id at status = record {
  id = id;
  ticket_no = codes "T1";
  scale_no = codes "S1";
  plate_no = none;
  weight_kg = 0x4093_4a00_0000_0000;
  original_unit = WeightUnit.kilogram;
  measured_at = at;
  status = status;
  retry_count = 0;
  last_error = none;
  created_at = 9;
  updated_at = 9;
}

-- Two records wait, the second one is older; the third is synced.
abbrev pub readings : List WeighingRecord
readings =
    reading 11 8 SyncStatus.pending
    ∷ reading 12 5 SyncStatus.failed
    ∷ reading 13 2 SyncStatus.synced
    ∷ []

abbrev pub cache : Db
cache = record { rows = map (to_model one_symbol) readings; inbound = []; faults = [] }

pub cache-Holds : Holds one_symbol cache readings
cache-Holds = record { rows = refl; records = omega arith }
