-- ===== src/Db/Models/SyncStatus.antt =====
-- db/models.rs: where a cached record stands.
use weighing_data_sync.Prelude.{◌≡◌, refl, if◌then◌else◌, Text, codes, text_eq, ◌++◌}
use weighing_data_sync.Anyhow.{Error, msg, Result, ok, err}

pub data SyncStatus : Type 0 where
  pending synced failed : SyncStatus

unfoldable pub as_str : SyncStatus → Text
as_str pending = codes "pending"
as_str synced = codes "synced"
as_str failed = codes "failed"

unfoldable pub parse : Text → Result Error SyncStatus
unfolding text_eq
parse value =
    if text_eq value (codes "pending")
    then ok pending
    else if text_eq value (codes "synced")
    then ok synced
    else if text_eq value (codes "failed")
    then ok failed
    else err (msg (codes "unsupported sync status " ++ value))

pub parse-as_str : (s : SyncStatus) → parse (as_str s) ≡ ok s
unfolding parse as_str
parse-as_str pending = refl
parse-as_str synced = refl
parse-as_str failed = refl
