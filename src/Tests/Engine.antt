-- ===== src/Tests/Engine.antt =====
-- A cycle of the local engine.
use weighing_data_sync.Prelude.{
  ℕ, ◌≡◌, refl, sym, ◌∙◌, ap, Bool, true, false, some, List, Pairs, Text, codes,
}
use weighing_data_sync.Anyhow.{Error, Result, ok, ok_injective}
use weighing_data_sync.Db.Models.{WeighingRecord}
use weighing_data_sync.Db.Store.{Holds}
use mathlib.Core.List.{reverse, reverse-reverse}
use weighing_data_sync.Sync.Payload.{
  Requests, IsRequests, Contexts, Builds, build_payload_request, build_payload_request-Builds,
}
use weighing_data_sync.Sync.{SyncOutcome}
use weighing_data_sync.Sync.Engine.{World, sync_once, upload_batch}
use weighing_data_sync.Sync.Engine.Upload.{Uploads, upload_batch-Uploads}
use weighing_data_sync.Sync.Engine.Cycle.{Cycle}
use weighing_data_sync.Sync.Engine.Refines.{sync_once_refines}
use weighing_data_sync.Sync.Engine.Safety.{Kept, Justified, sync_once_safe}
use weighing_data_sync.Tests.Sample.{engine, engine-IsEngine, cache, cache-Holds, readings}

abbrev world : World ℕ
world = record { db = cache; outside = 7 }

sync_once_refines_example :
    (r : Result Error SyncOutcome) × (w' : World ℕ) × (rs' : List WeighingRecord) × (sync_once
        engine world
      ≡ some (r, w'))
    × Holds engine.codec w'.db rs'
    × Cycle engine world.db readings r rs'
sync_once_refines_example = sync_once_refines engine engine-IsEngine world readings cache-Holds

sync_once_safe_example :
    (r : Result Error SyncOutcome) × (w' : World ℕ) × (rs' : List WeighingRecord) × (sync_once
        engine world
      ≡ some (r, w'))
    × Holds engine.codec w'.db rs'
    × Pairs Kept readings rs'
    × Pairs (Justified engine readings) readings rs'
sync_once_safe_example = sync_once_safe engine engine-IsEngine world readings cache-Holds

upload_batch-Uploads_example : Uploads engine readings 0 (upload_batch engine readings 0)
upload_batch-Uploads_example = upload_batch-Uploads engine readings 0

-- A request is its body and whether it is zipped; zipping turns a text round.
abbrev requests : Requests Text (Bool × Text)
requests = record {
  to_vec = λ t. ok t;
  write_all = λ t. ok (reverse t);
  finish = λ t. ok t;
  json = λ t. (false, t);
  with_body = λ headers t. (true, t);
}

abbrev unzipped : Bool × Text → Result Error Text
unzipped (false, t) = ok t
unzipped (true, t) = ok (reverse t)

requests-IsRequests : IsRequests requests
requests-IsRequests = record {
  carried = unzipped;
  carries_json = λ t. refl;
  unzips = λ text encoder zipped written finished.
      ap (λ t. Result.ok (reverse t))
        (sym (ok_injective _ _ _ refl finished) ∙ sym (ok_injective _ _ _ refl written))
      ∙ ap ok (reverse-reverse text);
}

abbrev contexts : Contexts
contexts = record { serialize = codes "s"; gzip = codes "g"; finalize = codes "f" }

build_payload_request-Builds_example :
    Builds contexts requests requests-IsRequests
      (codes "{}")
      true
      (build_payload_request contexts requests true (codes "{}"))
build_payload_request-Builds_example =
    build_payload_request-Builds contexts requests requests-IsRequests (codes "{}") true
