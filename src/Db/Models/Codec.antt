-- ===== src/Db/Models/Codec.antt =====
-- What the cache takes from `uuid` and `chrono`: text for an id and for an instant, and back.
use weighing_data_sync.Prelude.{ℕ, ◌*◌, ◌^◌, ◌<◌, ◌≡◌, leb, Text}
use weighing_data_sync.Text.Order.{text_le}
use weighing_data_sync.Anyhow.{Error, Result, ok}

pub record Codec : Type 0 where
  -- `Uuid::to_string` and `Uuid::parse_str`.
  pub uuid_to_string : ℕ → Text
  pub uuid_parse : Text → Result Error ℕ
  -- `DateTime::to_rfc3339` and `DateTime::parse_from_rfc3339`, in UTC.
  pub to_rfc3339 : ℕ → Text
  pub parse_from_rfc3339 : Text → Result Error ℕ

-- RFC 3339 has four digits for the year: the nanoseconds of the years 0 to 9999.
abbrev pub rfc3339_end : ℕ
rfc3339_end = 3_652_425 * 86_400 * 1_000_000_000

-- What is printed is read back, and the prints of instants sort as the instants do: `to_rfc3339` in UTC
-- leaves the fraction out or gives it 3, 6 or 9 digits, and the `+` of the offset sorts before `.` and
-- before any digit.
pub record IsCodec (c : Codec) : Type 0 where
  pub uuid_round_trip : (u : ℕ) → u < 2 ^ 128 → c.uuid_parse (c.uuid_to_string u) ≡ ok u
  pub rfc3339_round_trip : (t : ℕ) → t < rfc3339_end → c.parse_from_rfc3339 (c.to_rfc3339 t) ≡ ok t
  pub rfc3339_sorts :
      (s t : ℕ)
      → s < rfc3339_end
      → t < rfc3339_end
      → text_le (c.to_rfc3339 s) (c.to_rfc3339 t) ≡ leb s t
