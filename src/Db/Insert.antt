-- ===== src/Db/Insert.antt =====
-- Inserting into the cache: one record for each id.
use weighing_data_sync.Prelude.{
  ℕ, ◌≡◌, refl, ap, ◌∙◌, true, false, ◌⊎◌, inl, inr, List, [], ◌∷◌, ◌++◌, map, arith, Text, codes,
  text_eq, contains, any, All, All-append, Bool-cases,
}
use weighing_data_sync.Anyhow.{Error, msg, context, ok, err}
use weighing_data_sync.Db.Models.{WeighingRecord, to_model}
use weighing_data_sync.Db.Models.Codec.{Codec, IsCodec}
use weighing_data_sync.Db.Models.SyncStatus
use weighing_data_sync.Db.Models.SyncStatus.{SyncStatus, pending, synced, failed}
use weighing_data_sync.Db.Models.RoundTrip.{IsRecord}
use weighing_data_sync.Db.{Db, statement, insert, insert_record}
use weighing_data_sync.Db.Store.{
  has_id, Holds, Holds-same, statement_cases, uuid_to_string-eq_iff, Turns, HasFault,
}

abbrev pub ids_of : List WeighingRecord → List ℕ
ids_of [] = []
ids_of (r ∷ rs) = r.id ∷ ids_of rs

-- The `CHECK` on the status never refuses a row of the program.
status_checked :
    (s : SyncStatus)
    → contains (codes "pending" ∷ codes "synced" ∷ codes "failed" ∷ []) (SyncStatus.as_str s) ≡ true
unfolding SyncStatus.as_str text_eq
status_checked pending = refl
status_checked synced = refl
status_checked failed = refl

map-append-one :
    (c : Codec) (rs : List WeighingRecord) (r : WeighingRecord)
    → map (to_model c) rs ++ to_model c r ∷ [] ≡ map (to_model c) (rs ++ r ∷ [])
map-append-one c [] r = refl
map-append-one c (x ∷ rs) r = ap (λ l. to_model c x ∷ l) (map-append-one c rs r)

module _ (c : Codec) (lawful : IsCodec c) (r : WeighingRecord) (k : IsRecord r) where
  taken-has_id :
      (rs : List WeighingRecord)
      → All IsRecord rs
      → any (λ row. text_eq row.id (to_model c r).id) (map (to_model c) rs)
        ≡ has_id (ids_of rs) r.id
  unfolding to_model
  taken-has_id [] h = refl
  taken-has_id (x ∷ rs) (hx, h) =
      ground
        (arith, taken-has_id rs h, uuid_to_string-eq_iff c lawful x.id r.id hx.id_fits k.id_fits)

  -- What the statement itself does.
  insert_cases :
      (db : Db) (rs : List WeighingRecord)
      → Holds c db rs
      → ((has_id (ids_of rs) r.id ≡ true) × (e : Error) × (insert (to_model c r) db ≡ (err e, db)))
        ⊎ ((has_id (ids_of rs) r.id ≡ false)
            × (insert (to_model c r) db
                ≡ (ok tt, record db { rows = db.rows ++ to_model c r ∷ [] })))
  unfolding insert
  insert_cases db rs h =
      let checked : contains (codes "pending" ∷ codes "synced" ∷ codes "failed" ∷ [])
            (to_model c r).status
          ≡ true =
        unfold to_model in status_checked r.status in
      let known =
        ap (any (λ row. text_eq row.id (to_model c r).id)) h.rows ∙ taken-has_id rs h.records in
      elim (Bool-cases (has_id (ids_of rs) r.id)) [
        | inl e ↦ inl (
          e,
          msg (codes "UNIQUE constraint failed: weighing_records.id"),
          rw checked (rw (known ∙ e) refl),
        )
        | inr e ↦ inr (e, rw checked (rw (known ∙ e) refl))
      ]

  insert-statement-Turns :
      (ctx : Text) (db : Db) (rs : List WeighingRecord)
      → Holds c db rs
      → Turns c db rs
          (rs ++ r ∷ [])
          (HasFault db ⊎ (has_id (ids_of rs) r.id ≡ true))
          (statement ctx (insert (to_model c r)) db)
        × (has_id (ids_of rs) r.id ≡ true
            → (e : Error) × ((statement ctx (insert (to_model c r)) db).0 ≡ err e))
  insert-statement-Turns ctx db rs h = elim (statement_cases ctx (insert (to_model c r)) db) [
    | inl (db', e, fails, same, fault) ↦ rw fails (
      (same.2, inr (context ctx e, refl, Holds-same c db db' rs same h, inl fault)),
      λ _. (context ctx e, refl),
    )
    | inr (db', runs, same) ↦
        let held = Holds-same c db db' rs same h in
        elim (insert_cases db' rs held) [
          | inl (taken, e, refused) ↦ rw runs (
              rw refused
                ((same.2, inr (context ctx e, refl, held, inr taken)), λ _. (context ctx e, refl)))
          | inr (fresh, added) ↦ rw runs (
              rw added (
                (
                  same.2,
                  inl (
                    refl,
                    record {
                      rows = ap (λ l. l ++ to_model c r ∷ []) held.rows ∙ map-append-one c rs r;
                      records = All-append IsRecord rs (r ∷ []) held.records (k, tt);
                    },
                  ),
                ),
                λ taken. cc,
              ))
        ]
  ]

  -- Inserting a record adds it at the end, or fails and leaves the records as they were; it fails
  -- when a record with the same id is there, so that none is overwritten or doubled, and otherwise
  -- only when the statement does. The
  -- record must hold values that the cache can print.
  pub insert_record-Turns :
      (db : Db) (rs : List WeighingRecord)
      → Holds c db rs
      → Turns c db rs
          (rs ++ r ∷ [])
          (HasFault db ⊎ (has_id (ids_of rs) r.id ≡ true))
          (insert_record c r db)
        × (has_id (ids_of rs) r.id ≡ true → (e : Error) × ((insert_record c r db).0 ≡ err e))
  unfolding insert_record
  insert_record-Turns db rs h = insert-statement-Turns _ db rs h
