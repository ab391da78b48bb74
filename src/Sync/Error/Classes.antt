-- ===== src/Sync/Error/Classes.antt =====
-- Which statuses `from_status` classifies as permanent.
use weighing_data_sync.Prelude.{ℕ, ◌<◌, ◌≤◌, ◌≡◌, ◌≢◌, ◌↔◌, true, Text, arith}
use weighing_data_sync.Sync.Error.{status_is_permanent, from_status, is_permanent}

-- An upload that the endpoint answers with `status` is not retried exactly when the status is a
-- client error, 400 to 499, other than 408 and 429, whatever the body says.
pub from_status-permanent_iff :
    (status_text : ℕ → Text) (status : ℕ) (body : Text)
    → (is_permanent (from_status status_text status body) ≡ true)
      ↔ ((400 ≤ status) × (status < 500) × (status ≢ 408) × (status ≢ 429))
unfolding from_status status_is_permanent
from_status-permanent_iff status_text status body = ground arith
