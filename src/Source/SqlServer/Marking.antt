-- ===== src/Source/SqlServer/Marking.antt =====
-- What marking rows as uploaded does: the statements, chunk by chunk, and how far they get.
use weighing_data_sync.Prelude.{
  ℕ, ◌≡◌, refl, sym, ◌∙◌, ap, subst, inl, inr, Bool, true, false, ◌||◌, Bool-cases, if◌then◌else◌,
  Option, none, some, List, [], ◌∷◌, ◌++◌, append_assoc, map, any, is_empty, is_empty-cases, length,
  Text, codes,
}
use weighing_data_sync.Anyhow.{Error, Result, ok, err}
use weighing_data_sync.Source.SqlServer.Chunks.{concat, chunks_lem}
use weighing_data_sync.Source.SqlServer.Steps.{HasFault, attempt-cases, connect-cases}
use weighing_data_sync.Source.SqlServer.{
  WeightRow, Database, SqlServerSource, and_then, connect, chunks, is_listed, marked, mark_chunks,
  mark_uploaded, mark_upload_chunk_size,
}

any-append : (p : Text → Bool) (xs ys : List Text) → any p (xs ++ ys) ≡ (any p xs || any p ys)
any-append p [] ys = refl
any-append p (x ∷ xs) ys = rw (any-append p xs ys) (or_assoc (p x) (any p xs) (any p ys))
  where
    or_assoc : (a b c : Bool) → (a || (b || c)) ≡ ((a || b) || c)
    or_assoc true b c = refl
    or_assoc false b c = refl

module _ (equal : Text → Text → Bool) where
  is_listed-append :
      (first second : List Text) (serial : Option Text)
      → is_listed equal (first ++ second) serial
        ≡ (is_listed equal first serial || is_listed equal second serial)
  is_listed-append first second none = refl
  is_listed-append first second (some serial) = any-append (equal serial) first second

  marked-append :
      (first second : List Text) (row : WeightRow)
      → marked equal second (marked equal first row) ≡ marked equal (first ++ second) row
  marked-append first second row = elim (Bool-cases (is_listed equal first row.serial_no)) [
    | inr other ↦ rw (is_listed-append first second row.serial_no, other)
    | inl listed ↦
        rw (is_listed-append first second row.serial_no, listed)
          (marked_again (is_listed equal second row.serial_no)
            (record row { is_upload_cloud = some 1 }))
  ]
    where
      marked_again : {A : Type 0} (b : Bool) (a : A) → (if b then a else a) ≡ a
      marked_again true a = refl
      marked_again false a = refl

  map-marked-append :
      (first second : List Text) (rows : List WeightRow)
      → map (marked equal second) (map (marked equal first) rows)
        ≡ map (marked equal (first ++ second)) rows
  map-marked-append first second [] = refl
  map-marked-append first second (row ∷ rows) =
      rw (marked-append first second row, map-marked-append first second rows)

  -- How far marking got: the serial numbers of `sent` are marked, and nothing else is changed; it got
  -- through them all unless a step failed, and only a step that the script lets fail stops it.
  pub record Marked (serial_nos : List Text) (db : Database)
      (out : Result Error (Unit {0}) × Database) : Type 0 where
    pub sent : List Text
    pub left : List Text
    pub split : serial_nos ≡ sent ++ left
    pub rows : out.1.rows ≡ map (marked equal sent) db.rows
    pub all_sent : out.0 ≡ ok tt → left ≡ []
    pub stopped : (e : Error) → out.0 ≡ err e → HasFault db

  pub map-marked-nil : (rows : List WeightRow) → map (marked equal []) rows ≡ rows
  map-marked-nil [] = refl
  map-marked-nil (row ∷ rows) = rw (map-marked-nil rows, marked-nil row)
    where
      marked-nil : (row : WeightRow) → marked equal [] row ≡ row
      marked-nil row = nothing row.serial_no
        where
          nothing :
              (serial : Option Text)
              → (if is_listed equal [] serial then record row { is_upload_cloud = some 1 } else row)
                ≡ row
          nothing none = refl
          nothing (some serial) = refl

  mark_chunks-Marked :
      (show : ℕ → Text) (chunks_left : List (List Text)) (db : Database)
      → Marked (concat chunks_left) db (mark_chunks equal show chunks_left db)
  unfolding mark_chunks
  mark_chunks-Marked show [] db = record {
    sent = [];
    left = [];
    split = refl;
    rows = sym (map-marked-nil db.rows);
    all_sent = λ h. refl;
    stopped = λ e h. absurd cc;
  }
  mark_chunks-Marked show (chunk ∷ later) db =
      elim (attempt-cases
        (codes "failed to mark " ++ (show (length chunk) ++ codes " SQL Server rows as uploaded"))
        (map (marked equal chunk)) db) [
          | inr (db', e, runs, rows, fault) ↦
              rw (mark_chunks, runs)
                (record {
                  sent = [];
                  left = chunk ++ concat later;
                  split = refl;
                  rows = rows ∙ sym (map-marked-nil db.rows);
                  all_sent = λ h. absurd cc;
                  stopped = λ x h. fault;
                })
          | inl (db', runs, rows, script) ↦
              let rest = mark_chunks-Marked show later db' in
              rw (mark_chunks, runs)
                (record {
                  sent = chunk ++ rest.sent;
                  left = rest.left;
                  split = rw (rest.split, append_assoc);
                  rows =
                      rest.rows
                      ∙ ap (map (marked equal rest.sent)) rows
                      ∙ map-marked-append chunk rest.sent db.rows;
                  all_sent = rest.all_sent;
                  stopped = λ e h. script (rest.stopped e h);
                })
        ]

  -- The connection before the statements changes no row.
  connected-Marked :
      (address : Text) (serial_nos : List Text)
      (next : Database → Result Error (Unit {0}) × Database)
      → ((db : Database) → Marked serial_nos db (next db))
      → (db : Database) → Marked serial_nos db (and_then (connect address db) next)
  connected-Marked address serial_nos next marks db = elim (connect-cases address db) [
    | inr (db', e, runs, rows, fault) ↦ rw runs (record {
      sent = [];
      left = serial_nos;
      split = refl;
      rows = rows ∙ sym (map-marked-nil db.rows);
      all_sent = λ h. absurd cc;
      stopped = λ x h. fault;
    })
    | inl (db', runs, rows, script) ↦
        let rest = marks db' in
        rw runs (record {
          sent = rest.sent;
          left = rest.left;
          split = rest.split;
          rows = rest.rows ∙ ap (map (marked equal rest.sent)) rows;
          all_sent = rest.all_sent;
          stopped = λ e h. script (rest.stopped e h);
        })
  ]

  or_true : (b : Bool) → (b || true) ≡ true
  or_true true = refl
  or_true false = refl

  -- Where marking is disabled nothing happens at all. Where it is enabled, a call that succeeds has
  -- marked exactly the rows whose serial number is listed; one that fails has marked exactly those
  -- of a first part of the list, left all else as it was, and fails only where a step fails.
  pub mark_uploaded-Marked :
      (show : ℕ → Text) (address : Text) (source : SqlServerSource) (serial_nos : List Text)
      (db : Database)
      → (source.cfg.mark_uploaded ≡ false
          → mark_uploaded equal show address source serial_nos db ≡ (ok tt, db))
        × (source.cfg.mark_uploaded ≡ true
            → Marked serial_nos db (mark_uploaded equal show address source serial_nos db))
  unfolding mark_uploaded
  mark_uploaded-Marked show address source serial_nos db = (
    λ disabled. rw (mark_uploaded, disabled, or_true (is_empty serial_nos)),
    λ enabled. elim (is_empty-cases serial_nos) [
      | inl (nothing, empty) ↦
          rw (mark_uploaded, empty)
            (record {
              sent = [];
              left = serial_nos;
              split = refl;
              rows = sym (map-marked-nil db.rows);
              all_sent = λ h. nothing;
              stopped = λ e h. absurd cc;
            })
      | inr (_, filled) ↦
          rw (mark_uploaded, filled, enabled)
            (connected-Marked address serial_nos
              (mark_chunks equal show (chunks mark_upload_chunk_size serial_nos))
              (λ d.
                subst
                  (λ l.
                    Marked l d
                      (mark_chunks equal show (chunks mark_upload_chunk_size serial_nos) d))
                  (chunks_lem serial_nos).0
                  (mark_chunks-Marked show (chunks mark_upload_chunk_size serial_nos) d))
              db)
    ],
  )
