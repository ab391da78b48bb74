-- ===== src/Source/SqlServer.antt =====
-- source/sqlserver.rs: the upload flag of the rows of `tbl_weightInfo`. The server is its rows and a
-- script of faults: the head says whether the next step fails, and a step that fails changes
-- nothing.
pub mod Chunks
pub mod Identifier
pub mod Quoting
pub mod Steps
pub mod Marking
pub mod Quiet
pub mod Numeric
pub mod Row
pub mod Fetch
use weighing_data_sync.Prelude.{
  ℕ, suc, zero, Bool, true, false, not, ◌||◌, if◌then◌else◌, Option, none, some, List, [], ◌∷◌,
  ◌++◌, map, any, is_empty, length, take, drop, Text, codes,
}
use weighing_data_sync.Anyhow.{Error, context, Result, ok, err, ◌>>◌}
use weighing_data_sync.Config.{SqlServerConfig}
use weighing_data_sync.Config.SqlServer.{validate, is_plaintext, is_required_encryption}
use Identifier.{validate_identifier}

-- `MARK_UPLOAD_CHUNK_SIZE`.
abbrev pub mark_upload_chunk_size : ℕ
mark_upload_chunk_size = 1000

-- What the statements read and write of a row; the times are instants. The other columns stand for
-- themselves in `other_columns`, which nothing but the driver reads.
pub record WeightRow : Type 0 where
  pub serial_no : Option Text
  pub is_upload_cloud : Option ℕ
  pub del_flag : Option ℕ
  pub update_time : Option ℕ
  pub second_time : Option ℕ
  pub first_time : Option ℕ
  pub gross_time : Option ℕ
  pub other_columns : ℕ

pub record Database : Type 0 where
  pub rows : List WeightRow
  pub faults : List (Option Error)

-- The levels of encryption that the driver knows.
pub data EncryptionLevel : Type 0 where
  not_supported required off : EncryptionLevel

pub record SqlServerSource : Type 0 where
  pub cfg : SqlServerConfig

-- `SqlServerSource::new`.
unfoldable pub new : SqlServerConfig → Result Error SqlServerSource
unfolding validate validate_identifier
new cfg = elim (validate cfg) [
  | err e ↦ err e
  | ok _ ↦ elim (validate_identifier cfg.table) [ err e ↦ err e | ok _ ↦ ok (record { cfg = cfg }) ]
]

unfoldable pub encryption_level : SqlServerConfig → EncryptionLevel
unfolding is_plaintext is_required_encryption
encryption_level cfg =
    if is_plaintext cfg then not_supported else if is_required_encryption cfg then required else off

-- One step at the server.
attempt_on :
    Text
    → (List WeightRow → List WeightRow)
    → List (Option Error)
    → Database
    → Result Error (Unit {0}) × Database
attempt_on ctx effect [] db = (ok tt, record db { rows = effect db.rows })
attempt_on ctx effect (none ∷ faults) db =
    (ok tt, record { rows = effect db.rows; faults = faults })
attempt_on ctx effect (some e ∷ faults) db = (err (context ctx e), record db { faults = faults })

unfoldable pub attempt :
    Text → (List WeightRow → List WeightRow) → Database → Result Error (Unit {0}) × Database
unfolding attempt_on
attempt ctx effect db = attempt_on ctx effect db.faults db

abbrev pub same_rows : List WeightRow → List WeightRow
same_rows rows = rows

-- What follows a step, if it was taken.
abbrev pub and_then {ℓ} :
    {A : Type ℓ}
    → Result Error (Unit {0}) × Database
    → (Database → Result Error A × Database)
    → Result Error A × Database
and_then (ok _, db) next = next db
and_then (err e, db) next = (err e, db)

-- `connect`: three steps; the settings, `encryption_level` among them, go to the driver. `address` is
-- the driver's `get_addr`.
unfoldable pub connect : (address : Text) → Database → Result Error (Unit {0}) × Database
unfolding attempt
connect address db =
    and_then (attempt (codes "failed to connect SQL Server " ++ address) same_rows db) (λ s.
      and_then
        (attempt (codes "failed to enable TCP_NODELAY for SQL Server connection") same_rows s)
        (attempt (codes "failed to login SQL Server") same_rows))

-- `chunks` of a slice, on fuel.
abbrev pub chunks_on {ℓ} : {A : Type ℓ} → (fuel size : ℕ) → List A → List (List A)
chunks_on zero size xs = []
chunks_on (suc fuel) size [] = []
chunks_on (suc fuel) size (x ∷ xs) = take size (x ∷ xs) ∷ chunks_on fuel size (drop size (x ∷ xs))

unfoldable pub chunks {ℓ} : {A : Type ℓ} → ℕ → List A → List (List A)
chunks size xs = chunks_on (length xs) size xs

-- `equal` is how the server compares texts, which its collation decides; a null equals nothing.
module _ (equal : Text → Text → Bool) where
  abbrev pub is_listed : List Text → Option Text → Bool
  is_listed serial_nos none = false
  is_listed serial_nos (some serial_no) = any (equal serial_no) serial_nos

  -- What the update does to a row.
  abbrev pub marked : List Text → WeightRow → WeightRow
  marked serial_nos row =
      if is_listed serial_nos row.serial_no then record row { is_upload_cloud = some 1 } else row

  -- `UPDATE … SET [isUploadCloud] = 1 WHERE [serialNo] IN (…)`, chunk by chunk.
  unfoldable pub mark_chunks :
      (show : ℕ → Text) → List (List Text) → Database → Result Error (Unit {0}) × Database
  unfolding attempt
  mark_chunks show [] db = (ok tt, db)
  mark_chunks show (chunk ∷ later) db =
      and_then
        (attempt
          (codes "failed to mark " ++ (show (length chunk) ++ codes " SQL Server rows as uploaded"))
          (map (marked chunk)) db)
        (mark_chunks show later)

  unfoldable pub mark_uploaded :
      (show : ℕ → Text) (address : Text)
      → SqlServerSource
      → List Text
      → Database
      → Result Error (Unit {0}) × Database
  unfolding connect mark_chunks chunks
  mark_uploaded show address source serial_nos db =
      if is_empty serial_nos || not source.cfg.mark_uploaded
      then (ok tt, db)
      else and_then (connect address db)
          (mark_chunks show (chunks mark_upload_chunk_size serial_nos))
