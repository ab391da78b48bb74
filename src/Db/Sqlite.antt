-- ===== src/Db/Sqlite.antt =====
-- What the cache relies on of `ORDER BY measured_at`: SQLite compares text by its bytes, which is by
-- code points, and may return rows that compare equal in any order.
use mathlib.Core.List.{Permᴰ}
use weighing_data_sync.Prelude.{◌≡◌, true, List, [], ◌∷◌, All}
use weighing_data_sync.Text.Order.{text_le}
use weighing_data_sync.Db.Models.{Model}

pub record Sqlite : Type 0 where
  pub order_by_measured_at : List Model → List Model

abbrev pub NotNewer : Model → Model → Type 0
NotNewer a b = text_le a.measured_at b.measured_at ≡ true

abbrev pub OldestFirst : List Model → Type 0
OldestFirst [] = Unit
OldestFirst (m ∷ ms) = All (NotNewer m) ms × OldestFirst ms

pub record IsSqlite (q : Sqlite) : Type 0 where
  pub sorted : (ms : List Model) → OldestFirst (q.order_by_measured_at ms)
  pub same_rows : (ms : List Model) → Permᴰ ms (q.order_by_measured_at ms)
