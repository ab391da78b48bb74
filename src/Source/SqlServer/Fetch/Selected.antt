-- ===== src/Source/SqlServer/Fetch/Selected.antt =====
-- What is selected: the oldest pending rows, and a record for each of them.
use mathlib.Core.List.{Permᴰ}
use weighing_data_sync.Prelude.{
  ℕ, zero, suc, ◌≤◌, ◌≡◌, ◌≢◌, refl, ap, Bool, true, leb, Option, none, some, List, [], ◌∷◌, ◌++◌,
  keep, take, drop, length, length-take, take-append-drop, All, All-take, All-drop, arith,
}
use weighing_data_sync.Anyhow.{Error, ok, err}
use weighing_data_sync.Source.SqlServer.{WeightRow}
use weighing_data_sync.Source.SqlServer.Row.{Driver, SqlServerWeightRecord}
use weighing_data_sync.Source.SqlServer.Row.Converts.{Converts, Distinct, names}
use weighing_data_sync.Source.SqlServer.Fetch.{Tsql, is_pending, time_of, select_pending}

-- A null is older than any time.
abbrev pub not_newer : Option ℕ → Option ℕ → Bool
not_newer none t = true
not_newer (some a) none = leb 1 0
not_newer (some a) (some b) = leb a b

abbrev pub NotNewer : WeightRow → WeightRow → Type 0
NotNewer a b = not_newer (time_of a) (time_of b) ≡ true

abbrev pub OldestFirst : List WeightRow → Type 0
OldestFirst [] = Unit
OldestFirst (r ∷ rs) = All (NotNewer r) rs × OldestFirst rs

-- What is relied on: `ORDER BY` sorts, in any order among equals, and the selected columns of a row
-- have different names.
pub record IsTsql (q : Tsql) : Type 0 where
  pub sorted : (rows : List WeightRow) → OldestFirst (q.order_by_time rows)
  pub same_rows_ : (rows : List WeightRow) → Permᴰ rows (q.order_by_time rows)
  pub distinct : (row : WeightRow) → Distinct (names (q.columns_of row).cells)

-- The selected rows among `rows`: with those of `rest` they are all the pending ones; there are at
-- most `limit`, and as many while some stay behind; none is newer than one that stays behind.
pub record Selected (limit : ℕ) (rows selected : List WeightRow) : Type 0 where
  pub rest : List WeightRow
  pub all_pending : Permᴰ (keep is_pending rows) (selected ++ rest)
  pub fits : length selected ≤ limit
  pub full : rest ≢ [] → length selected ≡ limit
  pub oldest : All (λ r. All (NotNewer r) rest) selected
  pub ordered : OldestFirst selected

OldestFirst-split :
    (n : ℕ) (rows : List WeightRow)
    → OldestFirst rows
    → All (λ r. All (NotNewer r) (drop n rows)) (take n rows) × OldestFirst (take n rows)
OldestFirst-split zero rows h = (tt, tt)
OldestFirst-split (suc n) [] h = (tt, tt)
OldestFirst-split (suc n) (r ∷ rows) (first, h) =
    let (behind, ordered) = OldestFirst-split n rows h in
    ((All-drop (NotNewer r) n rows first, behind), (All-take (NotNewer r) n rows first, ordered))

take-full : {A : Type 0} (n : ℕ) (xs : List A) → drop n xs ≢ [] → length (take n xs) ≡ n
take-full zero xs h = refl
take-full (suc n) [] h = absurd (h refl)
take-full (suc n) (x ∷ xs) h = ap suc (take-full n xs h)

pub select_pending-Selected :
    (q : Tsql)
    → IsTsql q
    → (limit : ℕ) (rows : List WeightRow) → Selected limit rows (select_pending q limit rows)
unfolding select_pending
select_pending-Selected q lawful limit rows =
    let ordered = q.order_by_time (keep is_pending rows) in
    let (oldest, sorted) = OldestFirst-split limit ordered (lawful.sorted (keep is_pending rows)) in
    record {
      rest = drop limit ordered;
      all_pending = rw (take-append-drop limit ordered) (lawful.same_rows_ (keep is_pending rows));
      fits = omega (arith, length-take limit ordered);
      full = take-full limit ordered;
      oldest = oldest;
      ordered = sorted;
    }

module _ (d : Driver) (q : Tsql) where
  -- A record for each row, in order.
  pub data Records : List WeightRow → List SqlServerWeightRecord → Type 0 where
    no_rows : Records [] []
    a_record :
        {row : WeightRow} {rows : List WeightRow} {r : SqlServerWeightRecord}
        {rs : List SqlServerWeightRecord}
        → Converts d (q.columns_of row) (ok r)
        → Records rows rs
        → Records (row ∷ rows) (r ∷ rs)

  -- The first row that cannot be converted gives the error.
  pub data Refused : List WeightRow → Error → Type 0 where
    refused_here :
        {row : WeightRow} {rows : List WeightRow} {e : Error}
        → Converts d (q.columns_of row) (err e)
        → Refused (row ∷ rows) e
    refused_later :
        {row : WeightRow} {rows : List WeightRow} {r : SqlServerWeightRecord} {e : Error}
        → Converts d (q.columns_of row) (ok r)
        → Refused rows e
        → Refused (row ∷ rows) e
