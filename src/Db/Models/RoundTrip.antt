-- ===== src/Db/Models/RoundTrip.antt =====
-- A record is read back from the row that was written for it.
use weighing_data_sync.Prelude.{ℕ, ◌^◌, ◌<◌, ◌≡◌, ◌↔◌, arith, Option, Text, true, false, none}
use weighing_data_sync.Anyhow.{ok, is_ok}
use weighing_data_sync.Db.Models.Float.{F64, is_finite, is_negative}
use weighing_data_sync.Db.Models.Codec.{Codec, IsCodec, rfc3339_end}
use weighing_data_sync.Db.Models.WeightUnit
use weighing_data_sync.Db.Models.SyncStatus
use weighing_data_sync.Db.Models.{WeighingRecord, Mass, new, parse_rfc3339, try_from, to_model}

-- The values that the types of the program hold: a 128-bit id and three instants that RFC 3339 can
-- write.
pub record IsRecord (r : WeighingRecord) : Type 0 where
  pub id_fits : r.id < 2 ^ 128
  pub measured_fits : r.measured_at < rfc3339_end
  pub created_fits : r.created_at < rfc3339_end
  pub updated_fits : r.updated_at < rfc3339_end

module _ (c : Codec) (lawful : IsCodec c) where
  parse_rfc3339-to_rfc3339 : (t : ℕ) → t < rfc3339_end → parse_rfc3339 c (c.to_rfc3339 t) ≡ ok t
  unfolding parse_rfc3339
  parse_rfc3339-to_rfc3339 t h = rw (lawful.rfc3339_round_trip t h)

  -- Every record is read back unchanged from the row that `insert_record` writes for it, given that
  -- `uuid` and `chrono` read back what they print and that the instants lie in the years 0 to 9999.
  pub try_from-to_model : (r : WeighingRecord) → IsRecord r → try_from c (to_model c r) ≡ ok r
  unfolding try_from to_model
  try_from-to_model r h = rw (lawful.uuid_round_trip r.id h.id_fits) (
      rw (WeightUnit.parse-as_str r.original_unit) (
        rw (parse_rfc3339-to_rfc3339 r.measured_at h.measured_fits) (
          rw (SyncStatus.parse-as_str r.status) (
            rw (parse_rfc3339-to_rfc3339 r.created_at h.created_fits)
              (rw (parse_rfc3339-to_rfc3339 r.updated_at h.updated_fits))))))

-- A reading becomes a record exactly when its weight in kilograms is finite and not negative, and
-- the record then has that weight, waits for its first upload and carries no error.
pub new_iff :
    (m : Mass) (id now : ℕ) (ticket_no scale_no : Text) (plate_no : Option Text) (mass : F64)
    (original_unit : WeightUnit.WeightUnit) (measured_at : ℕ)
    → let made = new m id now ticket_no scale_no plate_no mass original_unit measured_at in
      ((is_ok made ≡ true)
        ↔ ((is_finite (m.to_kilogram mass) ≡ true) × (is_negative (m.to_kilogram mass) ≡ false)))
      × ((r : WeighingRecord)
          → made ≡ ok r
          → (r.weight_kg ≡ m.to_kilogram mass)
            × (r.status ≡ SyncStatus.pending)
            × (r.retry_count ≡ 0)
            × (r.last_error ≡ none))
unfolding new
new_iff m id now ticket_no scale_no plate_no mass original_unit measured_at =
    (ground arith, λ r e. ground arith)
