-- ===== src/Source/SqlServer/Fetch/Pending.antt =====
-- What the query for pending rows returns.
use weighing_data_sync.Prelude.{ℕ, ◌≡◌, refl, ◌∙◌, subst, ◌⊎◌, inl, inr, List, [], ◌∷◌, Text, codes}
use weighing_data_sync.Anyhow.{Error, Result, ok, err, Result-cases}
use weighing_data_sync.Db.Collect.{collect}
use weighing_data_sync.Source.SqlServer.{WeightRow, Database, same_rows}
use weighing_data_sync.Source.SqlServer.Steps.{HasFault, attempt-cases, connect-cases}
use weighing_data_sync.Source.SqlServer.Row.{Driver, SqlServerWeightRecord, row_to_record}
use weighing_data_sync.Source.SqlServer.Row.Converts.{Converts, row_to_record-Converts}
use weighing_data_sync.Source.SqlServer.Fetch.Selected.{
  IsTsql, Selected, select_pending-Selected, Records, no_rows, a_record, Refused, refused_here,
  refused_later,
}
use weighing_data_sync.Source.SqlServer.Fetch.{Tsql, select_pending, to_records, fetch_pending}

module _ (d : Driver) (q : Tsql) (lawful : IsTsql q) where
  to_records-cases :
      (rows : List WeightRow)
      → ((rs : List SqlServerWeightRecord) × (to_records d q rows ≡ ok rs) × Records d q rows rs)
        ⊎ ((e : Error) × (to_records d q rows ≡ err e) × Refused d q rows e)
  unfolding to_records collect
  to_records-cases [] = inl ([], refl, no_rows)
  to_records-cases (row ∷ rows) =
      let becomes = row_to_record-Converts d (q.columns_of row) (lawful.distinct row) in
      elim (Result-cases (row_to_record d (q.columns_of row))) [
        | inr (e, fails) ↦ inr (
          e,
          rw (to_records, fails),
          refused_here (subst (λ out. Converts d (q.columns_of row) out) fails becomes),
        )
        | inl (r, converts) ↦
            let a = subst (λ out. Converts d (q.columns_of row) out) converts becomes in
            elim (to_records-cases rows) [
              | inl (rs, rest, records) ↦
                  inl (r ∷ rs, rw (to_records, converts) (rw rest), a_record a records)
              | inr (e, rest, why) ↦
                  inr (e, rw (to_records, converts) (rw rest), refused_later a why)
            ]
      ]

  -- What a query comes to; no row is changed.
  pub record Fetches (limit : ℕ) (db : Database)
      (out : Result Error (List SqlServerWeightRecord) × Database) : Type 0 where
    pub rows : out.1.rows ≡ db.rows
    pub script : HasFault out.1 → HasFault db
    pub selected : List WeightRow
    pub selects : Selected limit db.rows selected
    pub outcome :
        ((rs : List SqlServerWeightRecord) × (out.0 ≡ ok rs) × Records d q selected rs)
        ⊎ ((e : Error) × (out.0 ≡ err e) × Refused d q selected e)
        ⊎ ((e : Error) × (out.0 ≡ err e) × HasFault db)

  fetched-Fetches :
      (limit : ℕ) (db queried read : Database)
      → queried.rows ≡ db.rows
      → read.rows ≡ db.rows
      → (HasFault read → HasFault db)
      → Fetches limit db (to_records d q (select_pending q limit queried.rows), read)
  fetched-Fetches limit db queried read same same_read script = record {
    rows = same_read;
    script = script;
    selected = select_pending q limit queried.rows;
    selects = rw same (select_pending-Selected q lawful limit db.rows);
    outcome = elim (to_records-cases (select_pending q limit queried.rows)) [
      | inl found ↦ inl found
      | inr why ↦ inr (inl why)
    ];
  }

  broken-Fetches :
      (limit : ℕ) (db db' : Database) (e : Error)
      → db'.rows ≡ db.rows
      → HasFault db
      → Fetches limit db (err e, db')
  broken-Fetches limit db db' e same fault = record {
    rows = same;
    script = λ h. fault;
    selected = select_pending q limit db.rows;
    selects = select_pending-Selected q lawful limit db.rows;
    outcome = inr (inr (e, refl, fault));
  }

  -- The query changes no row. It selects the oldest rows that are neither uploaded nor deleted, up to
  -- the limit, and returns a record for each, in order; it fails only with the first of these rows
  -- that cannot be converted, or where a step at the server fails.
  pub fetch_pending-Fetches :
      (address : Text) (limit : ℕ) (db : Database)
      → Fetches limit db (fetch_pending d q address limit db)
  unfolding fetch_pending
  fetch_pending-Fetches address limit db = elim (connect-cases address db) [
    | inr (db_1, e, runs, rows, fault) ↦
        rw (fetch_pending, runs) (broken-Fetches limit db db_1 e rows fault)
    | inl (db_1, runs, rows, script) ↦
        elim (attempt-cases (codes "failed to query tbl_weightInfo") same_rows db_1) [
          | inr (db_2, e, runs_2, rows_2, fault) ↦
              rw (fetch_pending, runs, runs_2)
                (broken-Fetches limit db db_2 e (rows_2 ∙ rows) (script fault))
          | inl (db_2, runs_2, rows_2, script_2) ↦
              elim (attempt-cases (codes "failed to read tbl_weightInfo rows") same_rows db_2) [
                | inr (db_3, e, runs_3, rows_3, fault) ↦
                    rw (fetch_pending, runs, runs_2, runs_3)
                      (broken-Fetches limit db db_3 e (rows_3 ∙ rows_2 ∙ rows)
                        (script (script_2 fault)))
                | inl (db_3, runs_3, rows_3, script_3) ↦
                    rw (fetch_pending, runs, runs_2, runs_3)
                      (fetched-Fetches limit db db_2 db_3 (rows_2 ∙ rows) (rows_3 ∙ rows_2 ∙ rows)
                        (λ h. script (script_2 (script_3 h))))
              ]
        ]
  ]
