-- ===== src/Db.antt =====
-- db/mod.rs: the local SQLite cache. A `Db` is what the database holds, with a script of faults: the
-- head says whether the next statement fails, and a statement that fails changes nothing.
pub mod Models
pub mod Collect
pub mod Sqlite
pub mod Store
pub mod Fetch
pub mod Insert
pub mod Connect
use weighing_data_sync.Prelude.{
  ℕ, ◌+◌, Bool, not, if◌then◌else◌, Option, none, some, List, [], ◌∷◌, ◌++◌, map, Text, codes,
  text_eq, contains, any, keep, take, is_empty,
}
use weighing_data_sync.Anyhow.{Error, msg, context, Result, ok, err, with_context}
use Models.{WeighingRecord, Model, to_model, try_from}
use Models.Codec.{Codec}
use Collect.{collect}

-- A row of `inbound_payloads`.
pub record InboundPayload : Type 0 where
  pub request_id : Text
  pub source : Text
  pub source_db : Text
  pub source_table : Text
  pub records_count : ℕ
  pub payload_json : Text
  pub received_at : Text

pub record Db : Type 0 where
  pub rows : List Model
  pub inbound : List InboundPayload
  pub faults : List (Option Error)

-- A call on the database; its effects stay when it fails later on.
abbrev pub Exec : Type 0 → Type 0
Exec A = Db → Result Error A × Db

abbrev pub continue : {A B : Type 0} → Result Error A → (A → Exec B) → Exec B
continue (ok a) f db = f a db
continue (err e) f db = (err e, db)

infixl 5 ◌>>=◌ ◌>>◌
abbrev pub ◌>>=◌ : {A B : Type 0} → Exec A → (A → Exec B) → Exec B
◌>>=◌ m f db = let (r, db') = m db in continue r f db'

abbrev pub ◌>>◌ : {B : Type 0} → Exec (Unit {0}) → Exec B → Exec B
m >> k = m >>= λ _. k

abbrev pub lift : {A : Type 0} → Result Error A → Exec A
lift r db = (r, db)

-- One statement under the context of its failure: it takes its place in the script of faults.
perform : {A : Type 0} → Text → (Db → Result Error A × Db) → List (Option Error) → Exec A
perform ctx effect [] db = let (r, db') = effect db in (with_context ctx r, db')
perform ctx effect (none ∷ fs) db =
    let (r, db') = effect (record db { faults = fs }) in (with_context ctx r, db')
perform ctx effect (some e ∷ fs) db = (err (context ctx e), record db { faults = fs })

unfoldable pub statement : {A : Type 0} → Text → (Db → Result Error A × Db) → Exec A
unfolding perform
statement ctx effect db = perform ctx effect db.faults db

-- `INSERT`: the primary key and the `CHECK` of the schema.
unfoldable pub insert : Model → Db → Result Error (Unit {0}) × Db
unfolding text_eq
insert row db =
    if not (contains (codes "pending" ∷ codes "synced" ∷ codes "failed" ∷ []) row.status)
    then (err (msg (codes "CHECK constraint failed")), db)
    else if any (λ r. text_eq r.id row.id) db.rows
    then (err (msg (codes "UNIQUE constraint failed: weighing_records.id")), db)
    else (ok tt, record db { rows = db.rows ++ row ∷ [] })

-- `status IN ('pending', 'failed')`.
unfoldable pub is_due : Model → Bool
unfolding text_eq
is_due row = contains (codes "pending" ∷ codes "failed" ∷ []) row.status

-- `SELECT … WHERE status IN (…) ORDER BY measured_at ASC LIMIT …`.
unfoldable pub select_due : Sqlite.Sqlite → ℕ → Db → Result Error (List Model) × Db
select_due q limit db = (ok (take limit (q.order_by_measured_at (keep is_due db.rows))), db)

-- What the two bulk updates write to a row.
abbrev pub synced_row : Text → Model → Model
synced_row now row = record row { status = codes "synced"; last_error = none; updated_at = now }

abbrev pub failed_row : Text → Text → Model → Model
failed_row error now row = record row {
  status = codes "failed";
  retry_count = row.retry_count + 1;
  last_error = some error;
  updated_at = now;
}

-- `UPDATE … WHERE id IN (…)`.
unfoldable pub update_where : List Text → (Model → Model) → Db → Result Error (Unit {0}) × Db
update_where ids f db =
    (ok tt, record db { rows = map (λ row. if contains ids row.id then f row else row) db.rows })

module _ (c : Codec) where
  unfoldable pub insert_record : WeighingRecord → Exec (Unit {0})
  insert_record r =
      statement (codes "failed to insert weighing record with SeaORM") (insert (to_model c r))

  unfoldable pub fetch_pending : Sqlite.Sqlite → ℕ → Exec (List WeighingRecord)
  fetch_pending q limit = do
    models ←
        statement (codes "failed to fetch pending weighing records with SeaORM")
          (select_due q limit)
    lift (collect (try_from c) models)

  -- `now` is `Utc::now()`.
  unfoldable pub mark_synced : (now : ℕ) → List ℕ → Exec (Unit {0})
  mark_synced now ids db =
      if is_empty ids
      then (ok tt, db)
      else statement (codes "failed to mark records as synced with SeaORM")
          (update_where (map c.uuid_to_string ids) (synced_row (c.to_rfc3339 now))) db

  unfoldable pub mark_failed : (now : ℕ) → List ℕ → Text → Exec (Unit {0})
  mark_failed now ids error db =
      if is_empty ids
      then (ok tt, db)
      else statement (codes "failed to mark records as failed with SeaORM")
          (update_where (map c.uuid_to_string ids) (failed_row error (c.to_rfc3339 now))) db

  unfoldable pub insert_payload : InboundPayload → Db → Result Error (Unit {0}) × Db
  unfolding text_eq
  insert_payload p db =
      if any (λ r. text_eq r.request_id p.request_id) db.inbound
      then (err (msg (codes "UNIQUE constraint failed: inbound_payloads.request_id")), db)
      else (ok tt, record db { inbound = db.inbound ++ p ∷ [] })

  -- `to_json` is `serde_json::to_string` of the payload.
  unfoldable pub insert_inbound_payload :
      (to_json : Result Error Text) (now request_id : ℕ) (source database table : Text)
      (records_count : ℕ)
      → Exec (Unit {0})
  insert_inbound_payload to_json now request_id source database table records_count = do
    payload_json ← lift (with_context (codes "failed to serialize inbound payload") to_json)
    statement (codes "failed to insert inbound payload") (
        insert_payload (record {
          request_id = c.uuid_to_string request_id;
          source = source;
          source_db = database;
          source_table = table;
          records_count = records_count;
          payload_json = payload_json;
          received_at = c.to_rfc3339 now;
        }))
