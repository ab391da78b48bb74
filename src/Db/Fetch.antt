-- ===== src/Db/Fetch.antt =====
-- What `fetch_pending` returns of the records that the cache holds.
use mathlib.Core.List.{Permᴰ}
use weighing_data_sync.Prelude.{
  ℕ, zero, suc, min, ◌≤◌, ◌≡◌, ◌≢◌, refl, ap, ◌∙◌, sym, true, ◌⊎◌, inl, inr, List, [], ◌∷◌, ◌++◌,
  map, arith, Text, codes, text_eq, contains, All, All-take, All-drop, Bool-cases, length,
  length-map, length-take, map-append, All-append, All-split, subst, All-perm, take, drop, keep,
  take-append-drop,
}
use weighing_data_sync.Anyhow.{Error, context, ok, err}
use weighing_data_sync.Db.Collect.{collect}
use weighing_data_sync.Db.Models.{WeighingRecord, Model, to_model, try_from}
use weighing_data_sync.Db.Models.Codec.{Codec, IsCodec}
use weighing_data_sync.Db.Models.SyncStatus.{SyncStatus, pending, synced, failed, as_str}
use weighing_data_sync.Db.Models.RoundTrip.{IsRecord, try_from-to_model}
use weighing_data_sync.Db.Sqlite.{Sqlite, IsSqlite, NotNewer, OldestFirst}
use weighing_data_sync.Db.{Db, is_due, select_due, fetch_pending}
use weighing_data_sync.Db.Store.{Holds, SameData, HasFault, statement_cases}

abbrev pub query_failed : Text
query_failed = codes "failed to fetch pending weighing records with SeaORM"

-- A row that waits for an upload and was written for a record.
abbrev IsWaiting : Codec → Model → Type 0
IsWaiting c m = (r : WeighingRecord) × IsRecord r × (m ≡ to_model c r) × (r.status ≢ synced)

due-ne-synced :
    (s : SyncStatus)
    → contains (codes "pending" ∷ codes "failed" ∷ []) (as_str s) ≡ true
    → s ≢ synced
unfolding as_str text_eq
due-ne-synced pending h = cc
due-ne-synced synced h = cc
due-ne-synced failed h = cc

is_due-status : (c : Codec) (r : WeighingRecord) → is_due (to_model c r) ≡ true → r.status ≢ synced
unfolding is_due to_model
is_due-status c r h = due-ne-synced r.status h

keep_due-IsWaiting :
    (c : Codec) (rs : List WeighingRecord)
    → All IsRecord rs
    → All (IsWaiting c) (keep is_due (map (to_model c) rs))
keep_due-IsWaiting c [] h = tt
keep_due-IsWaiting c (r ∷ rs) (hr, h) = elim (Bool-cases (is_due (to_model c r))) [
  | inl due ↦ rw due ((r, hr, refl, is_due-status c r due), keep_due-IsWaiting c rs h)
  | inr not_due ↦ rw not_due (keep_due-IsWaiting c rs h)
]

-- Rows that were written for records are decoded to them.
collect_waiting :
    (c : Codec) (lawful : IsCodec c) (ms : List Model)
    → All (IsWaiting c) ms
    → (rs : List WeighingRecord) × (collect (try_from c) ms ≡ ok rs)
      × (map (to_model c) rs ≡ ms)
      × All IsRecord rs
      × All (λ r. r.status ≢ synced) rs
unfolding collect
collect_waiting c lawful [] h = ([], refl, refl, tt, tt)
collect_waiting c lawful (m ∷ ms) ((r, k, e, due), h) =
    let (rs, decoded, back, known, all_due) = collect_waiting c lawful ms h in
    (
      r ∷ rs,
      rw e (rw (try_from-to_model c lawful r k) (rw decoded)),
      rw e (ap (λ l. to_model c r ∷ l) back),
      (k, known),
      (due, all_due),
    )

-- The first record was not measured later than the second one.
abbrev pub MeasuredBy : WeighingRecord → WeighingRecord → Type 0
MeasuredBy r s = r.measured_at ≤ s.measured_at

abbrev pub MeasuredInOrder : List WeighingRecord → Type 0
MeasuredInOrder [] = Unit
MeasuredInOrder (r ∷ rs) = All (MeasuredBy r) rs × MeasuredInOrder rs

NotNewer-instants :
    (c : Codec) (lawful : IsCodec c) (r : WeighingRecord)
    → IsRecord r
    → (rs : List WeighingRecord) → All IsRecord rs
    → All (NotNewer (to_model c r)) (map (to_model c) rs)
    → All (MeasuredBy r) rs
unfolding to_model
NotNewer-instants c lawful r k [] known h = tt
NotNewer-instants c lawful r k (s ∷ rs) (k', known) (first, h) =
    let sorts = lawful.rfc3339_sorts r.measured_at s.measured_at k.measured_fits k'.measured_fits in
    (ground (arith, sorts, first), NotNewer-instants c lawful r k rs known h)

-- Rows in the order of their printed times are records in the order of their instants.
OldestFirst-instants :
    (c : Codec) (lawful : IsCodec c) (rs : List WeighingRecord)
    → All IsRecord rs
    → OldestFirst (map (to_model c) rs)
    → MeasuredInOrder rs
OldestFirst-instants c lawful [] known h = tt
OldestFirst-instants c lawful (r ∷ rs) (k, known) (first, h) =
    (NotNewer-instants c lawful r k rs known first, OldestFirst-instants c lawful rs known h)

MeasuredInOrder-split :
    (batch rest : List WeighingRecord)
    → MeasuredInOrder (batch ++ rest)
    → All (λ r. All (MeasuredBy r) rest) batch × MeasuredInOrder batch
MeasuredInOrder-split [] rest h = (tt, tt)
MeasuredInOrder-split (r ∷ batch) rest (first, h) =
    let (behind, ordered) = MeasuredInOrder-split batch rest h in
    let (here, there) = All-split (MeasuredBy r) batch rest first in
    ((there, behind), (here, ordered))

-- A batch of at most `limit` records for upload out of the records `stored`: they are due, and with
-- the records `rest` that stay behind they are all that is due. Nothing stays behind while there is
-- room, no record of the batch was measured later than one that stays behind, and the batch is in the
-- order of the measurements.
pub record Batch (c : Codec) (stored : List WeighingRecord) (limit : ℕ)
    (batch : List WeighingRecord) : Type 0 where
  pub rest : List WeighingRecord
  pub all_due : Permᴰ (keep is_due (map (to_model c) stored)) (map (to_model c) (batch ++ rest))
  pub fits : length batch ≤ limit
  pub full : rest ≢ [] → length batch ≡ limit
  pub oldest : All (λ r. All (MeasuredBy r) rest) batch
  pub ordered : MeasuredInOrder batch
  pub due : All (λ r. r.status ≢ synced) batch
  pub known : All IsRecord batch

drop-nil_of_short : {A : Type 0} (n : ℕ) (xs : List A) → drop n xs ≢ [] → min n (length xs) ≡ n
drop-nil_of_short zero xs h = omega arith
drop-nil_of_short (suc n) [] h = absurd (h refl)
drop-nil_of_short (suc n) (x ∷ xs) h = omega (arith, drop-nil_of_short n xs h)

module _ (c : Codec) (lawful : IsCodec c) (q : Sqlite) (sqlite : IsSqlite q)
    (stored : List WeighingRecord) where
  abbrev due_rows : List Model
  due_rows = keep is_due (map (to_model c) stored)

  -- The rows that the query returns are decoded to a batch.
  query_Batch :
      (limit : ℕ)
      → All IsRecord stored
      → (batch : List WeighingRecord) × (collect
            (try_from c)
            (take limit (q.order_by_measured_at due_rows))
          ≡ ok batch)
        × Batch c stored limit batch
  query_Batch limit h =
      let ordered = q.order_by_measured_at due_rows in
      let waiting =
        All-perm (IsWaiting c) (sqlite.same_rows due_rows) (keep_due-IsWaiting c stored h) in
      let (batch, decoded, back, known, due) =
        collect_waiting c lawful (take limit ordered)
          (All-take (IsWaiting c) limit ordered waiting) in
      let (rest, _, back_, known_, _) =
        collect_waiting c lawful (drop limit ordered)
          (All-drop (IsWaiting c) limit ordered waiting) in
      let whole : map (to_model c) (batch ++ rest) ≡ ordered =
        map-append (to_model c) batch rest
        ∙ ap (λ l. l ++ map (to_model c) rest) back
        ∙ ap (λ l. take limit ordered ++ l) back_
        ∙ take-append-drop limit ordered in
      let (oldest, sorted) = MeasuredInOrder-split batch rest (
        OldestFirst-instants c lawful (batch ++ rest) (All-append IsRecord batch rest known known_)
          (subst OldestFirst (sym whole) (sqlite.sorted due_rows))) in
      let count : length batch ≡ min limit (length ordered) =
        sym (length-map (to_model c) batch) ∙ ap length back ∙ length-take limit ordered in
      (
        batch,
        decoded,
        record {
          rest = rest;
          all_due = subst (Permᴰ due_rows) (sym whole) (sqlite.same_rows due_rows);
          fits = omega arith;
          full = λ more.
              count
              ∙ drop-nil_of_short limit ordered
                  (λ nothing. more (nothing_behind rest (back_ ∙ nothing)));
          oldest = oldest;
          ordered = sorted;
          due = due;
          known = known;
        },
      )
    where
      nothing_behind : (rest : List WeighingRecord) → map (to_model c) rest ≡ [] → rest ≡ []
      nothing_behind [] h = refl
      nothing_behind (r ∷ rest) h = cc

  -- `fetch_pending` returns a batch of at most `limit` records that are not synced, oldest first,
  -- by the instants at which they were measured, and nothing that waits was measured before what it
  -- returns; if fewer than `limit` are returned, none is left behind. It fails only when the query
  -- fails: no row that the program wrote is refused. The data stay as they are. SQLite must return the
  -- selected rows in the order of the text in `measured_at`, and the prints of instants must sort as
  -- the instants do.
  pub fetch_pending-Batch :
      (limit : ℕ) (db : Db)
      → Holds c db stored
      → SameData db (fetch_pending c q limit db).1
        × (((e : Error) × ((fetch_pending c q limit db).0 ≡ err (context query_failed e))
              × HasFault db)
            ⊎ ((batch : List WeighingRecord) × ((fetch_pending c q limit db).0 ≡ ok batch)
                × Batch c stored limit batch))
  unfolding fetch_pending select_due
  fetch_pending-Batch limit db h = elim (statement_cases query_failed (select_due q limit) db) [
    | inl (db', e, fails, same, fault) ↦ rw fails (same, inl (e, refl, fault))
    | inr (db', runs, same) ↦
        let (batch, decoded, b) = query_Batch limit h.records in
        rw runs
          (rw (same.0 ∙ h.rows) (rw decoded ((sym h.rows, same.1, same.2), inr (batch, refl, b))))
  ]
