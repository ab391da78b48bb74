-- ===== src/Db/Store.antt =====
-- The cache as a list of records: what the stored rows stand for, and what each statement does to it.
use weighing_data_sync.Prelude.{
  any, is_some, ℕ, ◌+◌, ◌^◌, ◌<◌, ◌≡◌, refl, ap, ◌∙◌, Bool, true, false, ◌||◌, ◌==◌, if◌then◌else◌,
  ◌⊎◌, inl, inr, Option, none, some, List, [], ◌∷◌, map, arith, Text, text_eq, text_eq_iff,
  contains, All, ◌↔◌,
}
use weighing_data_sync.Anyhow.{Error, context, Result, ok, err, with_context}
use weighing_data_sync.Db.Models.{WeighingRecord, Model, to_model}
use weighing_data_sync.Db.Models.Codec.{Codec, IsCodec}
use weighing_data_sync.Db.Models.SyncStatus
use weighing_data_sync.Db.Models.RoundTrip.{IsRecord}
use weighing_data_sync.Db.Models.Codec.{rfc3339_end}
use weighing_data_sync.Db.{Db, perform, statement, update_where, mark_synced, mark_failed}

-- Whether an id is in a batch of ids.
abbrev pub has_id : List ℕ → ℕ → Bool
has_id [] u = false
has_id (i ∷ ids) u = i == u || has_id ids u

-- The two markings, on records.
abbrev pub synced_record : (now : ℕ) → WeighingRecord → WeighingRecord
synced_record now r = record r { status = SyncStatus.synced; last_error = none; updated_at = now }

abbrev pub failed_record : (now : ℕ) → Text → WeighingRecord → WeighingRecord
failed_record now error r = record r {
  status = SyncStatus.failed;
  retry_count = r.retry_count + 1;
  last_error = some error;
  updated_at = now;
}

abbrev pub update_ids :
    List ℕ → (WeighingRecord → WeighingRecord) → List WeighingRecord → List WeighingRecord
update_ids ids f [] = []
update_ids ids f (r ∷ rs) = (if has_id ids r.id then f r else r) ∷ update_ids ids f rs

-- A database holds the records `rs`: its rows are what `insert_record` writes for them.
pub record Holds (c : Codec) (db : Db) (rs : List WeighingRecord) : Type 0 where
  pub rows : db.rows ≡ map (to_model c) rs
  pub records : All IsRecord rs

-- Some statement still to come fails.
abbrev pub HasFault : Db → Type 0
HasFault db = any is_some db.faults ≡ true

-- The same data, with the script of faults moved on.
abbrev pub SameData : Db → Db → Type 0
SameData db db' = (db'.rows ≡ db.rows) × (db'.inbound ≡ db.inbound) × (HasFault db' → HasFault db)

perform_cases :
    {A : Type 0} (ctx : Text) (effect : Db → Result Error A × Db) (fs : List (Option Error))
    (db : Db)
    → db.faults ≡ fs
    → ((db' : Db) × (e : Error) × (perform ctx effect fs db ≡ (err (context ctx e), db'))
        × SameData db db'
        × HasFault db)
      ⊎ ((db' : Db) × (perform ctx effect fs db ≡ (with_context ctx (effect db').0, (effect db').1))
          × SameData db db')
unfolding perform
perform_cases ctx effect [] db e = inr (db, refl, (refl, refl, λ h. h))
perform_cases ctx effect (none ∷ fs) db e =
    inr (record db { faults = fs }, refl, (refl, refl, λ h. rw e h))
perform_cases ctx effect (some x ∷ fs) db e =
    inl (record db { faults = fs }, x, refl, (refl, refl, λ h. rw e refl), rw e refl)

-- A statement fails and leaves the data alone, or has its effect on the data.
pub statement_cases :
    {A : Type 0} (ctx : Text) (effect : Db → Result Error A × Db) (db : Db)
    → ((db' : Db) × (e : Error) × (statement ctx effect db ≡ (err (context ctx e), db'))
        × SameData db db'
        × HasFault db)
      ⊎ ((db' : Db) × (statement ctx effect db ≡ (with_context ctx (effect db').0, (effect db').1))
          × SameData db db')
unfolding statement
statement_cases ctx effect db = perform_cases ctx effect db.faults db refl

module _ (c : Codec) (lawful : IsCodec c) where
  -- Ids with the same text are the same.
  uuid_to_string-injective :
      (u v : ℕ) → u < 2 ^ 128 → v < 2 ^ 128 → c.uuid_to_string u ≡ c.uuid_to_string v → u ≡ v
  uuid_to_string-injective u v hu hv e =
      let same = ap c.uuid_parse e in
      cc (same, lawful.uuid_round_trip u hu, lawful.uuid_round_trip v hv)

  pub uuid_to_string-eq_iff :
      (u v : ℕ)
      → u < 2 ^ 128
      → v < 2 ^ 128
      → (text_eq (c.uuid_to_string u) (c.uuid_to_string v) ≡ true) ↔ (u ≡ v)
  uuid_to_string-eq_iff u v hu hv = (
    λ e. uuid_to_string-injective u v hu hv ((text_eq_iff _ _).0 e),
    λ e. (text_eq_iff _ _).1 (ap c.uuid_to_string e),
  )

  contains-has_id :
      (ids : List ℕ) (u : ℕ)
      → All (λ i. i < 2 ^ 128) ids
      → u < 2 ^ 128
      → contains (map c.uuid_to_string ids) (c.uuid_to_string u) ≡ has_id ids u
  contains-has_id [] u h hu = refl
  contains-has_id (i ∷ ids) u (hi, h) hu =
      ground (arith, contains-has_id ids u h hu, uuid_to_string-eq_iff i u hi hu)

  module _ (ids : List ℕ) (fit : All (λ i. i < 2 ^ 128) ids) where
    -- One function on the rows and one on the records that do the same.
    module _ (f : Model → Model) (g : WeighingRecord → WeighingRecord) where
      update_rows :
          (rs : List WeighingRecord)
          → ((r : WeighingRecord) → f (to_model c r) ≡ to_model c (g r))
          → All IsRecord rs
          → map
              (λ row. if contains (map c.uuid_to_string ids) row.id then f row else row)
              (map (to_model c) rs)
            ≡ map (to_model c) (update_ids ids g rs)
      update_rows [] same h = refl
      update_rows (r ∷ rs) same (hr, h) =
          let id_same : (to_model c r).id ≡ c.uuid_to_string r.id = unfold to_model in refl in
          rw id_same (
            rw (contains-has_id ids r.id fit hr.id_fits)
              (ground (arith, same r, update_rows rs same h)))

    update_ids-IsRecord :
        (g : WeighingRecord → WeighingRecord) (rs : List WeighingRecord)
        → ((r : WeighingRecord) → IsRecord r → IsRecord (g r))
        → All IsRecord rs
        → All IsRecord (update_ids ids g rs)
    update_ids-IsRecord g [] keeps h = tt
    update_ids-IsRecord g (r ∷ rs) keeps (hr, h) = (
      elim (has_id ids r.id) as (λ b. IsRecord (if b then g r else r)) [
        | true ↦ keeps r hr
        | false ↦ hr
      ],
      update_ids-IsRecord g rs keeps h,
    )

update_ids-nil :
    (g : WeighingRecord → WeighingRecord) (rs : List WeighingRecord) → update_ids [] g rs ≡ rs
update_ids-nil g [] = refl
update_ids-nil g (r ∷ rs) = ap (λ l. r ∷ l) (update_ids-nil g rs)

-- A call that turns the records `before` into `after`, or fails for a `Reason` and leaves them.
abbrev pub Turns :
    (c : Codec) (db : Db) (before after : List WeighingRecord) (Reason : Type 0)
    → Result Error (Unit {0}) × Db
    → Type 0
Turns c db before after Reason out =
    (HasFault out.1 → HasFault db)
    × (((out.0 ≡ ok tt) × Holds c out.1 after)
        ⊎ ((e : Error) × (out.0 ≡ err e) × Holds c out.1 before × Reason))

pub Holds-same :
    (c : Codec) (db db' : Db) (rs : List WeighingRecord)
    → SameData db db'
    → Holds c db rs
    → Holds c db' rs
Holds-same c db db' rs same h = record { rows = same.0 ∙ h.rows; records = h.records }

module _ (c : Codec) (lawful : IsCodec c) (db : Db) (rs : List WeighingRecord)
    (h : Holds c db rs) where
  -- A bulk update of the rows with the given ids.
  update_where-Turns :
      (ctx : Text) (ids : List ℕ) (f : Model → Model) (g : WeighingRecord → WeighingRecord)
      → All (λ i. i < 2 ^ 128) ids
      → ((r : WeighingRecord) → f (to_model c r) ≡ to_model c (g r))
      → ((r : WeighingRecord) → IsRecord r → IsRecord (g r))
      → Turns c db rs
          (update_ids ids g rs)
          (HasFault db)
          (statement ctx (update_where (map c.uuid_to_string ids) f) db)
  unfolding update_where
  update_where-Turns ctx ids f g fit same keeps =
      elim (statement_cases ctx (update_where (map c.uuid_to_string ids) f) db) [
        | inl (db', e, fails, data_same, fault) ↦
            rw fails
              (data_same.2, inr (context ctx e, refl, Holds-same c db db' rs data_same h, fault))
        | inr (db', runs, data_same) ↦ rw runs (
          data_same.2,
          inl (
            refl,
            record {
              rows =
                  ap
                    (map (λ row. if contains (map c.uuid_to_string ids) row.id then f row else row))
                    (data_same.0 ∙ h.rows)
                  ∙ update_rows c lawful ids fit f g rs same h.records;
              records = update_ids-IsRecord c lawful ids fit g rs keeps h.records;
            },
          ),
        )
      ]

  -- `mark_synced` refines the marking on records: on success exactly the records with the given
  -- ids are synced, with the error cleared and the time of the update set, and every other record,
  -- field and the order of the rows stay; it fails only when the statement does, and then all records are
  -- as they were. The ids and the time must be such as the cache can print.
  pub mark_synced-Turns :
      (now : ℕ) (ids : List ℕ)
      → now < rfc3339_end
      → All (λ i. i < 2 ^ 128) ids
      → Turns c db rs
          (update_ids ids (synced_record now) rs)
          (HasFault db)
          (mark_synced c now ids db)
  unfolding mark_synced to_model SyncStatus.as_str
  mark_synced-Turns now [] in_range fit =
      (λ f. f, inl (refl, rw (update_ids-nil (synced_record now) rs) h))
  mark_synced-Turns now (i ∷ ids) in_range fit =
      update_where-Turns _ (i ∷ ids) _ (synced_record now) fit (λ r. refl)
        λ r k. record {
          id_fits = k.id_fits;
          measured_fits = k.measured_fits;
          created_fits = k.created_fits;
          updated_fits = in_range;
        }

  -- `mark_failed` refines the marking on records: on success exactly the records with the given
  -- ids are failed, with one more in the count of retries, the error and the time of the update,
  -- and all else stays; it fails only when the
  -- statement does, and then all records are as they were. The ids and the time
  -- must be such as the cache can print.
  pub mark_failed-Turns :
      (now : ℕ) (ids : List ℕ) (error : Text)
      → now < rfc3339_end
      → All (λ i. i < 2 ^ 128) ids
      → Turns c db rs
          (update_ids ids (failed_record now error) rs)
          (HasFault db)
          (mark_failed c now ids error db)
  unfolding mark_failed to_model SyncStatus.as_str
  mark_failed-Turns now [] error in_range fit =
      (λ f. f, inl (refl, rw (update_ids-nil (failed_record now error) rs) h))
  mark_failed-Turns now (i ∷ ids) error in_range fit =
      update_where-Turns _ (i ∷ ids) _ (failed_record now error) fit (λ r. refl)
        λ r k. record {
          id_fits = k.id_fits;
          measured_fits = k.measured_fits;
          created_fits = k.created_fits;
          updated_fits = in_range;
        }
