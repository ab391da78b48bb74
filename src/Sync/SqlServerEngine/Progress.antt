-- ===== src/Sync/SqlServerEngine/Progress.antt =====
-- What a cycle of the SQL Server engine gets done where nothing fails.
use weighing_data_sync.Prelude.{
  ◌-◌, ◌≤◌, ◌≡◌, refl, sym, ◌∙◌, ap, subst, inl, inr, true, arith, Option, none, some, List, [],
  ◌∷◌, map, length, All, All-perm, length-keep-append, length-keep-perm, length-keep-le,
  length-perm, length-append, is_empty-cases, Text,
}
use weighing_data_sync.Anyhow.{Error, Result, ok, ok_injective}
use weighing_data_sync.Source.SqlServer.{WeightRow, Database, is_listed, marked}
use weighing_data_sync.Source.SqlServer.Steps.{HasFault}
use weighing_data_sync.Source.SqlServer.Row.{SqlServerWeightRecord}
use weighing_data_sync.Source.SqlServer.Fetch.{is_pending}
use weighing_data_sync.Source.SqlServer.Fetch.Selected.{Selected, Records, a_record}
use weighing_data_sync.Sync.{SyncOutcome, no_data}
use weighing_data_sync.Sync.SqlServerEngine.{SqlServerSyncEngine, serial_nos_of}
use weighing_data_sync.Sync.SqlServerEngine.Cycle.{
  Accepts, Cycle, broken, refused, nothing_selected, upload_failed, uploaded, marking_stopped,
}
use weighing_data_sync.Sync.SqlServerEngine.Waiting.{
  IsConvertible, waiting, Ready, Converts-convertible, no-Refused, Listed, unlisted, waiting-marked,
  none_unlisted, All-keep, All-first,
}
use weighing_data_sync.Sync.SqlServerEngine.Taking.{TakesAll}

module _ {Body S : Type 0} (e : SqlServerSyncEngine Body S) (up : TakesAll e) where
  listed-cons :
      (i : Text) (ids : List Text) (serial_no : Option Text)
      → is_listed e.equal ids serial_no ≡ true
      → is_listed e.equal (i ∷ ids) serial_no ≡ true
  listed-cons i ids none h = h
  listed-cons i ids (some serial_no) h = ground arith

  All-Listed-cons :
      (i : Text) (ids : List Text) (rows : List WeightRow)
      → All (Listed e.equal ids) rows
      → All (Listed e.equal (i ∷ ids)) rows
  All-Listed-cons i ids [] h = tt
  All-Listed-cons i ids (row ∷ rows) (listed, h) =
      (listed-cons i ids row.serial_no listed, All-Listed-cons i ids rows h)

  -- The rows of a batch have its serial numbers.
  Records-Listed :
      (selected : List WeightRow) (rs : List SqlServerWeightRecord)
      → All (IsConvertible e.driver e.tsql) selected
      → Records e.driver e.tsql selected rs
      → All (Listed e.equal (serial_nos_of rs)) selected
  Records-Listed [] rs h records = tt
  Records-Listed (row ∷ rows) [] h records = elim records [ ]
  Records-Listed (row ∷ rows) (r ∷ rs) (h, hs) (a_record converts records) =
      let (r', same, stands) = Converts-convertible e.driver e.tsql row (ok r) h converts in
      (
        found row.serial_no r.serial_no (serial_nos_of rs) (stands ∙ ap (λ x. some x) cc),
        All-Listed-cons r.serial_no (serial_nos_of rs) rows (Records-Listed rows rs hs records),
      )
    where
      found :
          (serial_no : Option Text) (i : Text) (ids : List Text)
          → serial_no ≡ some i
          → is_listed e.equal (i ∷ ids) serial_no ≡ true
      found serial_no i ids stands = rw (stands, up.reflexive i)

  -- What is left to wait when the whole batch is marked.
  waiting-rest :
      (rows selected : List WeightRow) (ids : List Text)
      → (s : Selected e.sync.batch_size rows selected) → All (Listed e.equal ids) selected
      → waiting (map (marked e.equal ids) rows) ≤ length s.rest
  waiting-rest rows selected ids s listed = omega (
    arith,
    waiting-marked e.equal ids rows,
    length-keep-perm (unlisted e.equal ids) s.all_pending,
    length-keep-append (unlisted e.equal ids) selected s.rest,
    none_unlisted e.equal ids selected listed,
    length-keep-le (unlisted e.equal ids) s.rest,
  )

  rest-fits :
      (rows selected : List WeightRow) (s : Selected e.sync.batch_size rows selected)
      → length s.rest ≤ waiting rows - e.sync.batch_size
  rest-fits rows selected s = elim (is_empty-cases s.rest) [
    | inl (nothing, _) ↦ omega (arith, ap length nothing)
    | inr (something, _) ↦
        omega (arith, s.full something, length-perm s.all_pending, length-append selected s.rest)
  ]

  -- The rows that the query selects can be converted.
  convertible :
      (rows selected : List WeightRow)
      → Selected e.sync.batch_size rows selected
      → All (Ready e.driver e.tsql) rows
      → All (IsConvertible e.driver e.tsql) selected
  convertible rows selected s ready = All-first (IsConvertible e.driver e.tsql) selected s.rest (
      All-perm (IsConvertible e.driver e.tsql) s.all_pending
        (All-keep (IsConvertible e.driver e.tsql) is_pending rows ready))

  -- What a cycle comes to where nothing fails.
  pub Cycle-progress :
      {db : Database} {out : Result Error SyncOutcome} {rows : List WeightRow}
      → (HasFault db → ⊥)
      → All (Ready e.driver e.tsql) db.rows
      → Cycle e db out rows
      → ((o : SyncOutcome) × (out ≡ ok o)) × (waiting rows ≤ waiting db.rows - e.sync.batch_size)
  Cycle-progress {db} clean ready (broken x fault) = absurd (clean fault)
  Cycle-progress {db} clean ready (refused x selected s why) =
      absurd (no-Refused e.driver e.tsql selected x (convertible db.rows selected s ready) why)
  Cycle-progress {db} clean ready (nothing_selected s) =
      ((no_data, refl), omega (arith, rest-fits db.rows [] s, length-perm s.all_pending))
  Cycle-progress {db} clean ready (upload_failed records u s taken (before, answer)) =
      let (response, takes, _) =
        up.takes taken.selected records taken.converted taken.some_ before in
      let refuses = sym takes ∙ ap (λ o. o.0) answer in absurd cc
  Cycle-progress {db} clean ready (uploaded records response ids s taken (before, answer) accepts) =
      let (response_, takes, whole_batch) =
        up.takes taken.selected records taken.converted taken.some_ before in
      let same = ok_injective _ _ _ takes (ap (λ o. o.0) answer) in
      let batch =
        whole_batch ids (subst (λ x. Accepts (serial_nos_of records) x ids) (sym same) accepts) in
      let listed =
        Records-Listed taken.selected records
          (convertible db.rows taken.selected taken.selects ready) taken.converted in
      (
        (_, refl),
        rw (up.enabled, batch)
            (omega (
              arith,
              rest-fits db.rows taken.selected taken.selects,
              waiting-rest db.rows taken.selected (serial_nos_of records) taken.selects listed,
            )),
      )
  Cycle-progress {db} clean ready
        (marking_stopped records response done left s x taken answered accepts fault) =
      absurd (clean fault)
