-- ===== src/Sync/SqlServerEngine/Safety.antt =====
-- What a cycle of the SQL Server engine never does to a row.
use weighing_data_sync.Prelude.{
  ◌≡◌, refl, ◌⊎◌, inl, inr, Bool, true, false, Bool-cases, arith, if◌then◌else◌, Option, none, some,
  List, [], ◌∷◌, ◌++◌, any, map, Pairs, Pairs-refl, Pairs-map, Text,
}
use weighing_data_sync.Anyhow.{Error, Result, ok}
use weighing_data_sync.Source.SqlServer.{WeightRow, Database, is_listed, marked}
use weighing_data_sync.Source.SqlServer.Row.{SqlServerWeightRecord}
use weighing_data_sync.Sync.{SyncOutcome}
use weighing_data_sync.Sync.SqlServerEngine.{
  SqlServerSyncEngine, SqlServerUploadResponse, World, sync_once, serial_nos_of,
}
use weighing_data_sync.Sync.SqlServerEngine.Cycle.{
  IsEngine, Accepts, markings, Taken, Answered, Cycle, broken, refused, nothing_selected,
  upload_failed, uploaded, marking_stopped,
}
use weighing_data_sync.Sync.SqlServerEngine.Refines.{sync_once_follows}

module _ {Body S : Type 0} (e : SqlServerSyncEngine Body S) where
  -- Marking is enabled, the endpoint answered an upload of a batch that the query selected, and its
  -- answer accepts the serial number.
  pub record Accepted (db : Database) (serial_no : Option Text) : Type 0 where
    pub enabled : e.source.cfg.mark_uploaded ≡ true
    pub records : List SqlServerWeightRecord
    pub response : SqlServerUploadResponse
    pub final : S
    pub taken : Taken e db records
    pub answered : Answered e records (ok response) final
    pub ids : List Text
    pub accepts : Accepts (serial_nos_of records) response ids
    pub listed : is_listed e.equal ids serial_no ≡ true

  -- A row stays, or only its flag is set, and that for a reason.
  abbrev pub Justified : Database → WeightRow → WeightRow → Type 0
  Justified db row row' =
      (row' ≡ row) ⊎ ((row' ≡ record row { is_upload_cloud = some 1 }) × Accepted db row.serial_no)

  is_listed-append :
      (done left : List Text) (serial_no : Option Text)
      → is_listed e.equal done serial_no ≡ true
      → is_listed e.equal (done ++ left) serial_no ≡ true
  is_listed-append done left none h = h
  is_listed-append done left (some serial_no) h = any_append done h
    where
      any_append :
          (xs : List Text)
          → any (e.equal serial_no) xs ≡ true
          → any (e.equal serial_no) (xs ++ left) ≡ true
      any_append [] h = absurd cc
      any_append (x ∷ xs) h = ground (arith, any_append xs)

  markings-Justified :
      (db : Database) (ids : List Text)
      → ((row : WeightRow)
          → e.source.cfg.mark_uploaded ≡ true
          → is_listed e.equal ids row.serial_no ≡ true
          → Accepted db row.serial_no)
      → (rows : List WeightRow) → Pairs (Justified db) rows (markings e ids rows)
  markings-Justified db ids why rows = flagged e.source.cfg.mark_uploaded (λ h row. why row h)
    where
      one :
          ((row : WeightRow)
            → is_listed e.equal ids row.serial_no ≡ true
            → Accepted db row.serial_no)
          → (row : WeightRow) → Justified db row (marked e.equal ids row)
      one why row = elim (Bool-cases (is_listed e.equal ids row.serial_no)) [
        | inl listed ↦ rw listed (inr (refl, why row listed))
        | inr unlisted ↦ rw unlisted (inl refl)
      ]

      flagged :
          (b : Bool)
          → (b ≡ true
              → (row : WeightRow) → is_listed e.equal ids row.serial_no ≡ true
              → Accepted db row.serial_no)
          → Pairs (Justified db) rows (if b then map (marked e.equal ids) rows else rows)
      flagged false why = Pairs-refl (Justified db) (λ row. inl refl) rows
      flagged true why = Pairs-map (Justified db) (marked e.equal ids) (one (why refl)) rows

  pub Cycle-Justified :
      {db : Database} {out : Result Error SyncOutcome} {rows : List WeightRow}
      → Cycle e db out rows
      → Pairs (Justified db) db.rows rows
  Cycle-Justified {db} (broken x fault) = Pairs-refl (Justified db) (λ row. inl refl) db.rows
  Cycle-Justified {db} (refused x selected s why) =
      Pairs-refl (Justified db) (λ row. inl refl) db.rows
  Cycle-Justified {db} (nothing_selected s) = Pairs-refl (Justified db) (λ row. inl refl) db.rows
  Cycle-Justified {db} (upload_failed records u s t a) =
      Pairs-refl (Justified db) (λ row. inl refl) db.rows
  Cycle-Justified {db} (uploaded records response ids s taken answered accepts) =
      markings-Justified db ids
        (λ row enabled listed. record {
          enabled = enabled;
          records = records;
          response = response;
          final = s;
          taken = taken;
          answered = answered;
          ids = ids;
          accepts = accepts;
          listed = listed;
        })
        db.rows
  Cycle-Justified {db}
        (marking_stopped records response done left s x taken answered accepts fault) =
      markings-Justified db done
        (λ row enabled listed. record {
          enabled = enabled;
          records = records;
          response = response;
          final = s;
          taken = taken;
          answered = answered;
          ids = done ++ left;
          accepts = accepts;
          listed = is_listed-append done left row.serial_no listed;
        })
        db.rows

  -- Whatever a cycle meets, it returns, and the server holds the same rows in the same order: a row
  -- is as it was, or only its upload flag is set, and then marking is enabled, the endpoint answered
  -- an upload of a batch that the query selected, and its answer accepts the row's serial number.
  -- The server, the endpoint and the clock must behave as `IsEngine` says.
  pub sync_once_marks :
      IsEngine e
      → (w : World S)
      → (r : Result Error SyncOutcome) × (w' : World S) × (sync_once e w ≡ some (r, w'))
        × Pairs (Justified w.db) w.db.rows w'.db.rows
  sync_once_marks lawful w =
      let (r, w', returned, (rows, left, cycle)) = sync_once_follows e lawful w in
      (r, w', returned, rw left (Cycle-Justified cycle))
