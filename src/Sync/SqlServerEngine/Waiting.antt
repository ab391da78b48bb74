-- ===== src/Sync/SqlServerEngine/Waiting.antt =====
-- The rows that wait, and what marking leaves of them.
use weighing_data_sync.Prelude.{
  ℕ, suc, ◌≡◌, ◌≢◌, refl, sym, ◌∙◌, ap, inl, inr, Bool, true, not, Bool-cases, some, List, [], ◌∷◌,
  ◌++◌, map, keep, length, All, Text, codes,
}
use weighing_data_sync.Anyhow.{Error, Result, ok, err}
use weighing_data_sync.Text.{trim}
use weighing_data_sync.Source.SqlServer.{WeightRow, is_listed, marked}
use weighing_data_sync.Source.SqlServer.Row.{Driver, SqlServerWeightRecord}
use weighing_data_sync.Source.SqlServer.Row.Converts.{
  Converts, converted, unread, missing, blank, unconverted, Fails,
}
use weighing_data_sync.Source.SqlServer.Fetch.{Tsql, is_pending}
use weighing_data_sync.Source.SqlServer.Fetch.Selected.{Refused, refused_here, refused_later}

-- A row whose columns all have JSON values, under a serial number that is not blank and that the
-- driver gives as it stands in the table.
pub record IsConvertible (d : Driver) (q : Tsql) (row : WeightRow) : Type 0 where
  pub serial : Text
  pub stands : row.serial_no ≡ some serial
  pub given : d.try_get_text (q.columns_of row) (codes "serialNo") ≡ ok (some serial)
  pub filled : trim serial ≢ []
  pub columns : (x : Error) → Fails d (q.columns_of row) (q.columns_of row).cells x → ⊥

-- The rows that wait.
abbrev pub waiting : List WeightRow → ℕ
waiting rows = length (keep is_pending rows)

-- A row that waits can be converted.
abbrev pub Ready : Driver → Tsql → WeightRow → Type 0
Ready d q row = is_pending row ≡ true → IsConvertible d q row

pub All-keep :
    (P : WeightRow → Type 0) (p : WeightRow → Bool) (rows : List WeightRow)
    → All (λ row. p row ≡ true → P row) rows
    → All P (keep p rows)
All-keep P p [] h = tt
All-keep P p (row ∷ rows) (first, h) = elim (Bool-cases (p row)) [
  | inl holds ↦ rw holds (first holds, All-keep P p rows h)
  | inr fails ↦ rw fails (All-keep P p rows h)
]

pub All-first : (P : WeightRow → Type 0) (xs ys : List WeightRow) → All P (xs ++ ys) → All P xs
All-first P [] ys h = tt
All-first P (x ∷ xs) ys (first, h) = (first, All-first P xs ys h)

module _ (d : Driver) (q : Tsql) where
  -- Such a row is not refused, and its record has its serial number.
  pub Converts-convertible :
      (row : WeightRow) (out : Result Error SqlServerWeightRecord)
      → IsConvertible d q row
      → Converts d (q.columns_of row) out
      → (r : SqlServerWeightRecord) × (out ≡ ok r) × (row.serial_no ≡ some r.serial_no)
  Converts-convertible row (ok r) h (converted read something _) =
      let same = sym h.given ∙ read in (r, refl, h.stands ∙ ap some cc)
  Converts-convertible row (err x) h (unread failed) = let same = sym h.given ∙ failed in absurd cc
  Converts-convertible row (err x) h (missing read) = let same = sym h.given ∙ read in absurd cc
  Converts-convertible row (err x) h (blank read nothing) =
      let same = sym h.given ∙ read in absurd (h.filled cc)
  Converts-convertible row (err x) h (unconverted read fails) = absurd (h.columns x fails)

  pub no-Refused :
      (rows : List WeightRow) (x : Error) → All (IsConvertible d q) rows → Refused d q rows x → ⊥
  no-Refused [] x hs refusal = elim refusal [ ]
  no-Refused (row ∷ rows) x (h, hs) (refused_here fails) =
      let (r, same, _) = Converts-convertible row (err x) h fails in absurd cc
  no-Refused (row ∷ rows) x (h, hs) (refused_later converts later) = no-Refused rows x hs later

-- Rows whose serial numbers are all listed.
module _ (equal : Text → Text → Bool) (ids : List Text) where
  abbrev pub Listed : WeightRow → Type 0
  Listed row = is_listed equal ids row.serial_no ≡ true

  -- After marking, only rows that are not listed wait.
  abbrev pub unlisted : WeightRow → Bool
  unlisted row = not (is_listed equal ids row.serial_no)

  pub waiting-marked :
      (rows : List WeightRow)
      → waiting (map (marked equal ids) rows) ≡ length (keep unlisted (keep is_pending rows))
  unfolding is_pending
  waiting-marked [] = refl
  waiting-marked (row ∷ rows) = elim (Bool-cases (is_listed equal ids row.serial_no)) [
    | inl listed ↦ elim (Bool-cases (is_pending row)) [
      | inl pending ↦ rw (listed, pending, listed) (waiting-marked rows)
      | inr settled ↦ rw (listed, settled) (waiting-marked rows)
    ]
    | inr other ↦ elim (Bool-cases (is_pending row)) [
      | inl pending ↦ rw (other, pending, other) (ap suc (waiting-marked rows))
      | inr settled ↦ rw (other, settled) (waiting-marked rows)
    ]
  ]

  pub none_unlisted : (rows : List WeightRow) → All Listed rows → length (keep unlisted rows) ≡ 0
  none_unlisted [] h = refl
  none_unlisted (row ∷ rows) (listed, h) = rw listed (none_unlisted rows h)
