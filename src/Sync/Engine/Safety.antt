-- ===== src/Sync/Engine/Safety.antt =====
-- What a cycle of the local engine never does to a record.
use weighing_data_sync.Prelude.{
  ℕ, ◌≤◌, ◌≡◌, refl, Bool, true, false, if◌then◌else◌, ◌⊎◌, inl, inr, some, List, [], ◌∷◌, Text,
  Pairs, Pairs-refl, arith,
}
use weighing_data_sync.Anyhow.{Error, Result, ok}
use weighing_data_sync.Db.{Db}
use weighing_data_sync.Db.Models.{WeighingRecord}
use weighing_data_sync.Db.Models.SyncStatus.{synced}
use weighing_data_sync.Db.Store.{Holds, has_id, update_ids, synced_record, failed_record}
use weighing_data_sync.Db.Fetch.{Batch}
use weighing_data_sync.Sync.{SyncOutcome}
use weighing_data_sync.Sync.Engine.{SyncEngine, BatchUploadResponse, World, sync_once}
use weighing_data_sync.Sync.Engine.Cycle.{
  IsEngine, Accepts, Answered, Cycle, db_failed, nothing_due, no_room, upload_failed, uploaded,
  failed_unmarked,
}
use weighing_data_sync.Sync.Engine.Refines.{sync_once_refines}

-- The reading itself stays, and attempts are only added.
pub record Kept (r r' : WeighingRecord) : Type 0 where
  pub same_id : r'.id ≡ r.id
  pub same_ticket_no : r'.ticket_no ≡ r.ticket_no
  pub same_scale_no : r'.scale_no ≡ r.scale_no
  pub same_plate_no : r'.plate_no ≡ r.plate_no
  pub same_weight_kg : r'.weight_kg ≡ r.weight_kg
  pub same_original_unit : r'.original_unit ≡ r.original_unit
  pub same_measured_at : r'.measured_at ≡ r.measured_at
  pub same_created_at : r'.created_at ≡ r.created_at
  pub more_retries : r.retry_count ≤ r'.retry_count

-- One update, and one after another.
Pairs-update :
    (P : WeighingRecord → WeighingRecord → Type 0) (ids : List ℕ)
    (g : WeighingRecord → WeighingRecord)
    → ((r : WeighingRecord) → P r (if has_id ids r.id then g r else r))
    → (rs : List WeighingRecord) → Pairs P rs (update_ids ids g rs)
Pairs-update P ids g h [] = tt
Pairs-update P ids g h (r ∷ rs) = (h r, Pairs-update P ids g h rs)

Pairs-update_twice :
    (P : WeighingRecord → WeighingRecord → Type 0) (ids jds : List ℕ)
    (g f : WeighingRecord → WeighingRecord)
    → ((r : WeighingRecord)
        → let r' = if has_id ids r.id then g r else r in
          P r (if has_id jds r'.id then f r' else r'))
    → (rs : List WeighingRecord) → Pairs P rs (update_ids jds f (update_ids ids g rs))
Pairs-update_twice P ids jds g f h [] = tt
Pairs-update_twice P ids jds g f h (r ∷ rs) = (h r, Pairs-update_twice P ids jds g f h rs)

Kept-refl : (r : WeighingRecord) → Kept r r
Kept-refl r = ground arith

Kept-trans : (q r s : WeighingRecord) → Kept q r → Kept r s → Kept q s
Kept-trans q r s h k = ground arith

Kept-if : (b : Bool) (r r' : WeighingRecord) → Kept r r' → Kept r (if b then r' else r)
Kept-if true r r' h = h
Kept-if false r r' h = Kept-refl r

Kept-synced : (now : ℕ) (r : WeighingRecord) → Kept r (synced_record now r)
Kept-synced now r = ground arith

Kept-failed : (now : ℕ) (x : Text) (r : WeighingRecord) → Kept r (failed_record now x r)
Kept-failed now x r = ground arith

module _ {Body S : Type 0} (e : SyncEngine Body S) where
  -- The endpoint answered an upload of a batch, and its answer accepts the id.
  pub record Accepted (rs : List WeighingRecord) (id : ℕ) : Type 0 where
    pub batch : List WeighingRecord
    pub response : BatchUploadResponse
    pub final : S
    pub taken : Batch e.codec rs e.sync.batch_size batch
    pub answered : Answered e batch (ok response) final
    pub ids : List ℕ
    pub accepts : Accepts batch response ids
    pub listed : has_id ids id ≡ true

  -- A record that is synced was so before, or the endpoint accepted it.
  abbrev pub Justified : List WeighingRecord → WeighingRecord → WeighingRecord → Type 0
  Justified rs r r' = r'.status ≡ synced → (r.status ≡ synced) ⊎ Accepted rs r.id

  Cycle-Kept :
      {db : Db} {rs : List WeighingRecord} {out : Result Error SyncOutcome}
      {rs' : List WeighingRecord}
      → Cycle e db rs out rs'
      → Pairs Kept rs rs'
  Cycle-Kept {rs} (db_failed x fault) = Pairs-refl Kept Kept-refl rs
  Cycle-Kept {rs} (nothing_due n) = Pairs-refl Kept Kept-refl rs
  Cycle-Kept {rs} (no_room n) = Pairs-refl Kept Kept-refl rs
  Cycle-Kept {rs} (upload_failed batch u s b a) =
      Pairs-update Kept _ _ (λ r. Kept-if _ r _ (Kept-failed _ _ r)) rs
  Cycle-Kept {rs} (uploaded batch response ids s accepts b a) =
      Pairs-update_twice Kept _ _ _ _
        (λ r.
          Kept-trans r _ _ (Kept-if _ r _ (Kept-synced _ r)) (Kept-if _ _ _ (Kept-failed _ _ _)))
        rs
  Cycle-Kept {rs} (failed_unmarked batch response ids s x accepts fault b a) =
      Pairs-update Kept _ _ (λ r. Kept-if _ r _ (Kept-synced _ r)) rs

  synced_by_marking :
      (r : WeighingRecord) (X : Type 0) (now : ℕ) (marked : Bool)
      → (marked ≡ true → X)
      → (if marked then synced_record now r else r).status ≡ synced
      → (r.status ≡ synced) ⊎ X
  synced_by_marking r X now true why h = inr (why refl)
  synced_by_marking r X now false why h = inl h

  synced_before_failing :
      (r : WeighingRecord) (now : ℕ) (x : Text) (marked : Bool)
      → (if marked then failed_record now x r else r).status ≡ synced
      → r.status ≡ synced
  synced_before_failing r now x true h = cc
  synced_before_failing r now x false h = h

  Cycle-Justified :
      {db : Db} {rs : List WeighingRecord} {out : Result Error SyncOutcome}
      {rs' : List WeighingRecord}
      → Cycle e db rs out rs'
      → Pairs (Justified rs) rs rs'
  Cycle-Justified {rs} (db_failed x fault) = Pairs-refl (Justified rs) (λ r h. inl h) rs
  Cycle-Justified {rs} (nothing_due n) = Pairs-refl (Justified rs) (λ r h. inl h) rs
  Cycle-Justified {rs} (no_room n) = Pairs-refl (Justified rs) (λ r h. inl h) rs
  Cycle-Justified {rs} (upload_failed batch u s b a) =
      Pairs-update (Justified rs) _ _ (λ r h. inl (synced_before_failing r _ _ _ h)) rs
  Cycle-Justified {rs} (uploaded batch response ids s accepts b a) =
      Pairs-update_twice (Justified rs) _ _ _ _
        (λ r h.
          synced_by_marking r (Accepted rs r.id) _ _
            (λ listed. record {
              batch = batch;
              response = response;
              final = s;
              taken = b;
              answered = a;
              ids = ids;
              accepts = accepts;
              listed = listed;
            })
            (synced_before_failing _ _ _ _ h))
        rs
  Cycle-Justified {rs} (failed_unmarked batch response ids s x accepts fault b a) =
      Pairs-update (Justified rs) _ _
        (λ r h.
          synced_by_marking r (Accepted rs r.id) _ _
            (λ listed. record {
              batch = batch;
              response = response;
              final = s;
              taken = b;
              answered = a;
              ids = ids;
              accepts = accepts;
              listed = listed;
            })
            h)
        rs

  -- Whatever a cycle meets, it returns, and afterwards the cache holds the same readings in the same
  -- order: no record is lost or added, only the status, the error, the time of the update and the
  -- count of retries can differ, and the count never falls. A record is synced then only if it was
  -- so before, or if the endpoint answered an upload of a batch and its answer accepts the record:
  -- by its id, or by naming no id at all when the record was in the batch. The libraries and the
  -- clock must behave as `IsEngine` says.
  pub sync_once_safe :
      IsEngine e
      → (w : World S) (rs : List WeighingRecord) → Holds e.codec w.db rs
      → (r : Result Error SyncOutcome) × (w' : World S) × (rs' : List WeighingRecord) × (sync_once e
            w
          ≡ some (r, w'))
        × Holds e.codec w'.db rs'
        × Pairs Kept rs rs'
        × Pairs (Justified rs) rs rs'
  sync_once_safe lawful w rs h =
      let (r, w', rs', returned, held, cycle) = sync_once_refines e lawful w rs h in
      (r, w', rs', returned, held, Cycle-Kept cycle, Cycle-Justified cycle)
