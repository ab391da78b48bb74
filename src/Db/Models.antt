-- ===== src/Db/Models.antt =====
-- db/models.rs and entity/weighing_record.rs: the weighing record and its row in the cache.
-- A `Uuid` is its 128-bit value, a `DateTime<Utc>` the number of nanoseconds since the beginning of
-- year 0, an `f64` its 64-bit pattern; a `retry_count` is a plain number.
pub mod Float
pub mod Codec
pub mod WeightUnit
pub mod SyncStatus
pub mod RoundTrip
use weighing_data_sync.Prelude.{ℕ, not, ◌||◌, if◌then◌else◌, Option, none, Text, codes, ◌++◌}
use weighing_data_sync.Anyhow.{Error, msg, Result, ok, err, with_context, ◌>>=◌, ◌>>◌}
use Float.{F64, is_finite, is_negative}

pub record WeighingRecord : Type 0 where
  pub id : ℕ
  pub ticket_no : Text
  pub scale_no : Text
  pub plate_no : Option Text
  pub weight_kg : F64
  pub original_unit : WeightUnit.WeightUnit
  pub measured_at : ℕ
  pub status : SyncStatus.SyncStatus
  pub retry_count : ℕ
  pub last_error : Option Text
  pub created_at : ℕ
  pub updated_at : ℕ

-- `Model`, a row of `weighing_records`.
pub record Model : Type 0 where
  pub id : Text
  pub ticket_no : Text
  pub scale_no : Text
  pub plate_no : Option Text
  pub weight_kg : F64
  pub original_unit : Text
  pub measured_at : Text
  pub status : Text
  pub retry_count : ℕ
  pub last_error : Option Text
  pub created_at : Text
  pub updated_at : Text

-- The conversions of `uom` that the program calls; a `Mass` is an `f64` in the base unit.
pub record Mass : Type 0 where
  pub of_kilogram : F64 → F64
  pub of_pound : F64 → F64
  pub to_kilogram : F64 → F64
  pub to_pound : F64 → F64

module _ (m : Mass) where
  -- `WeighingRecord::new`; `id` is the fresh `Uuid::new_v4()` and `now` is `Utc::now()`.
  unfoldable pub new :
      (id now : ℕ) (ticket_no scale_no : Text) (plate_no : Option Text) (mass : F64)
      (original_unit : WeightUnit.WeightUnit) (measured_at : ℕ)
      → Result Error WeighingRecord
  unfolding is_finite is_negative
  new id now ticket_no scale_no plate_no mass original_unit measured_at =
      let weight_kg = m.to_kilogram mass in
      if not (is_finite weight_kg) || is_negative weight_kg
      then err (msg (codes "weight must be a finite non-negative number"))
      else ok (record {
        id = id;
        ticket_no = ticket_no;
        scale_no = scale_no;
        plate_no = plate_no;
        weight_kg = weight_kg;
        original_unit = original_unit;
        measured_at = measured_at;
        status = SyncStatus.pending;
        retry_count = 0;
        last_error = none;
        created_at = now;
        updated_at = now;
      })

  unfoldable pub new_kg :
      (id now : ℕ) (ticket_no scale_no : Text) (plate_no : Option Text) (weight_kg : F64)
      (measured_at : ℕ)
      → Result Error WeighingRecord
  unfolding new
  new_kg id now ticket_no scale_no plate_no weight_kg measured_at =
      new id now ticket_no scale_no plate_no (m.of_kilogram weight_kg) WeightUnit.kilogram
        measured_at

  unfoldable pub new_lb :
      (id now : ℕ) (ticket_no scale_no : Text) (plate_no : Option Text) (weight_lb : F64)
      (measured_at : ℕ)
      → Result Error WeighingRecord
  unfolding new
  new_lb id now ticket_no scale_no plate_no weight_lb measured_at =
      new id now ticket_no scale_no plate_no (m.of_pound weight_lb) WeightUnit.pound measured_at

  -- `mass_kg` and `weight_lb`.
  unfoldable pub weight_lb : WeighingRecord → F64
  weight_lb r = m.to_pound (m.of_kilogram r.weight_kg)

module _ (c : Codec.Codec) where
  -- `parse_rfc3339`.
  unfoldable pub parse_rfc3339 : Text → Result Error ℕ
  parse_rfc3339 value =
      with_context (codes "invalid RFC3339 datetime " ++ value) (c.parse_from_rfc3339 value)

  -- `WeighingRecord::try_from`.
  unfoldable pub try_from : Model → Result Error WeighingRecord
  try_from model = do
    id ← with_context (codes "invalid uuid " ++ model.id) (c.uuid_parse model.id)
    original_unit ← WeightUnit.parse model.original_unit
    measured_at ← parse_rfc3339 model.measured_at
    status ← SyncStatus.parse model.status
    created_at ← parse_rfc3339 model.created_at
    updated_at ← parse_rfc3339 model.updated_at
    ok (record {
      id = id;
      ticket_no = model.ticket_no;
      scale_no = model.scale_no;
      plate_no = model.plate_no;
      weight_kg = model.weight_kg;
      original_unit = original_unit;
      measured_at = measured_at;
      status = status;
      retry_count = model.retry_count;
      last_error = model.last_error;
      created_at = created_at;
      updated_at = updated_at;
    })

  -- The row that `insert_record` writes (`active`, db/mod.rs).
  unfoldable pub to_model : WeighingRecord → Model
  to_model r = record {
    id = c.uuid_to_string r.id;
    ticket_no = r.ticket_no;
    scale_no = r.scale_no;
    plate_no = r.plate_no;
    weight_kg = r.weight_kg;
    original_unit = WeightUnit.as_str r.original_unit;
    measured_at = c.to_rfc3339 r.measured_at;
    status = SyncStatus.as_str r.status;
    retry_count = r.retry_count;
    last_error = r.last_error;
    created_at = c.to_rfc3339 r.created_at;
    updated_at = c.to_rfc3339 r.updated_at;
  }
