-- ===== src/Sync/Error.antt =====
-- sync/error.rs: which failed uploads are worth a retry. A status is its number; `anyhow!` renders
-- it through `status_text`, the `Display` of the HTTP library's status.
pub mod Classes
use weighing_data_sync.Prelude.{
  ℕ, Bool, true, false, not, ◌&&◌, ◌||◌, ltb, leb, ◌==◌, if◌then◌else◌, Text, codes, ◌++◌,
}
use weighing_data_sync.Anyhow.{Error, msg}

pub data UploadError : Type 0 where
  transient : Error → UploadError
  permanent : Error → UploadError

-- `StatusCode::is_client_error` and `is_success` of the HTTP library.
abbrev pub is_client_error : ℕ → Bool
is_client_error status = leb 400 status && ltb status 500

abbrev pub is_success : ℕ → Bool
is_success status = leb 200 status && ltb status 300

unfoldable pub status_is_permanent : ℕ → Bool
status_is_permanent status =
    if is_client_error status then not (status == 408 || status == 429) else false

unfoldable pub from_status : (ℕ → Text) → ℕ → Text → UploadError
from_status status_text status body =
    let error =
      msg (
        codes "remote upload failed with status "
        ++ (status_text status ++ (codes ": " ++ body))) in
    if status_is_permanent status then permanent error else transient error

-- The error inside, whichever way it was classified.
abbrev pub cause : UploadError → Error
cause (transient e) = e
cause (permanent e) = e

abbrev pub is_permanent : UploadError → Bool
is_permanent (permanent e) = true
is_permanent (transient e) = false
