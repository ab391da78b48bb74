-- ===== src/Tests/Sorting.antt =====
-- A query engine that sorts by insertion.
use weighing_data_sync.Prelude.{◌≡◌, refl, Bool, true, false, List, [], ◌∷◌, Text, arith}
use weighing_data_sync.Db.Models.{Model}
use weighing_data_sync.Db.Sqlite.{Sqlite, IsSqlite, OldestFirst}
use weighing_data_sync.Text.Order.{text_le}
use weighing_data_sync.Tests.InsertionSort.{Ordered, sort, sort-perm, sort-Ordered}

text_le_trans : (s t u : Text) → text_le s t ≡ true → text_le t u ≡ true → text_le s u ≡ true
unfolding text_le
text_le_trans [] t u h k = refl
text_le_trans (x ∷ s) [] u h k = cc
text_le_trans (x ∷ s) (y ∷ t) [] h k = cc
text_le_trans (x ∷ s) (y ∷ t) (z ∷ u) h k = ground (arith, text_le_trans s t u)

text_le_total : (s t : Text) → text_le s t ≡ false → text_le t s ≡ true
unfolding text_le
text_le_total [] t h = cc
text_le_total (x ∷ s) [] h = refl
text_le_total (x ∷ s) (y ∷ t) h = ground (arith, text_le_total s t)

abbrev measured_before : Model → Model → Bool
measured_before m n = text_le m.measured_at n.measured_at

Ordered-OldestFirst : (ms : List Model) → Ordered measured_before ms → OldestFirst ms
Ordered-OldestFirst [] h = tt
Ordered-OldestFirst (m ∷ ms) (first, h) = (first, Ordered-OldestFirst ms h)

abbrev pub sorting : Sqlite
sorting = record { order_by_measured_at = sort measured_before }

pub sorting-IsSqlite : IsSqlite sorting
sorting-IsSqlite = record {
  sorted = λ ms. Ordered-OldestFirst (sort measured_before ms) (
      sort-Ordered measured_before
        (λ l m n. text_le_trans l.measured_at m.measured_at n.measured_at)
        (λ m n. text_le_total m.measured_at n.measured_at) ms);
  same_rows = sort-perm measured_before;
}
