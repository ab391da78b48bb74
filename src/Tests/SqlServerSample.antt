-- ===== src/Tests/SqlServerSample.antt =====
-- A driver, a server and an engine over them, which behave as the theorems ask.
use weighing_data_sync.Prelude.{
  ℕ, ◌≡◌, ◌≢◌, refl, sym, ◌∙◌, Bool, true, false, Option, none, some, List, [], ◌∷◌, Text, codes,
  text_eq, text_eq_refl, All, arith,
}
use weighing_data_sync.Anyhow.{Error, msg, Result, ok, err}
use weighing_data_sync.Text.{trim, is_whitespace}
use weighing_data_sync.Config.Defaults.{default_sqlserver}
use weighing_data_sync.Source.SqlServer.{WeightRow}
use weighing_data_sync.Source.SqlServer.Row.{
  Cell, Driver, string, date_time, other_type, column_value_to_json, format_datetime,
}
use weighing_data_sync.Source.SqlServer.Row.Converts.{Fails, fails_here, fails_later}
use weighing_data_sync.Source.SqlServer.Fetch.{Tsql, time_of, is_pending}
use weighing_data_sync.Source.SqlServer.Fetch.Selected.{IsTsql, OldestFirst, not_newer}
use weighing_data_sync.Sync.SqlServerEngine.{SqlServerSyncEngine, World}
use weighing_data_sync.Sync.SqlServerEngine.Cycle.{IsEngine}
use weighing_data_sync.Sync.SqlServerEngine.Taking.{IsUp}
use weighing_data_sync.Sync.SqlServerEngine.Waiting.{IsConvertible, Ready}
use weighing_data_sync.Tests.InsertionSort.{Ordered, sort, sort-perm, sort-Ordered}
use weighing_data_sync.Tests.Sample.{cloud, clock-IsTimer, engine}

-- The first cell holds the serial number.
abbrev pub text_of_cells : List Cell → Result Error (Option Text)
text_of_cells [] = err (msg (codes "no column serialNo"))
text_of_cells (cell ∷ cells) = elim cell.value [ string t ↦ ok t | _ ↦ err (msg (codes "no text")) ]

abbrev pub driver : Driver
driver = record {
  try_get_text = λ row name. text_of_cells row.cells;
  try_get_decimal = λ row name. ok none;
  try_get_datetime = λ row name. ok (some 5);
  print_datetime = λ t. t ∷ [];
  print_guid = λ g. g ∷ [];
  print_f64 = λ x. x ∷ [];
  widen = λ x. x;
}

abbrev pub earlier : WeightRow → WeightRow → Bool
earlier a b = not_newer (time_of a) (time_of b)

not_newer_trans :
    (s t u : Option ℕ) → not_newer s t ≡ true → not_newer t u ≡ true → not_newer s u ≡ true
not_newer_trans none t u h k = refl
not_newer_trans (some a) none u h k = absurd cc
not_newer_trans (some a) (some b) none h k = absurd cc
not_newer_trans (some a) (some b) (some c) h k = ground arith

not_newer_total : (s t : Option ℕ) → not_newer s t ≡ false → not_newer t s ≡ true
not_newer_total none t h = absurd cc
not_newer_total (some a) none h = refl
not_newer_total (some a) (some b) h = ground arith

Ordered-OldestFirst : (rows : List WeightRow) → Ordered earlier rows → OldestFirst rows
Ordered-OldestFirst [] h = tt
Ordered-OldestFirst (row ∷ rows) (first, h) = (first, Ordered-OldestFirst rows h)

abbrev pub tsql : Tsql
tsql = record {
  order_by_time = sort earlier;
  columns_of = λ row. record {
    cells =
        record { name = codes "serialNo"; column_type = other_type; value = string row.serial_no }
        ∷ record {
          name = codes "grossTime";
          column_type = other_type;
          value = date_time row.gross_time;
        }
        ∷ [];
  };
}

pub tsql-IsTsql : IsTsql tsql
unfolding text_eq
tsql-IsTsql = record {
  sorted = λ rows. Ordered-OldestFirst (sort earlier rows) (
      sort-Ordered earlier (λ a b c. not_newer_trans (time_of a) (time_of b) (time_of c))
        (λ a b. not_newer_total (time_of a) (time_of b)) rows);
  same_rows_ = sort-perm earlier;
  distinct = λ row. (refl, (refl, tt));
}

abbrev pub sql_engine : SqlServerSyncEngine (Unit {0}) ℕ
sql_engine = record {
  driver = driver;
  tsql = tsql;
  equal = text_eq;
  address = codes "db:1433";
  show = λ n. n ∷ [];
  cloud = cloud;
  build = λ r. ok tt;
  decode = λ t. err (msg []);
  api = engine.api;
  sync = engine.sync;
  source = record { cfg = record default_sqlserver { mark_uploaded = true } };
}

pub sql_engine-IsEngine : IsEngine sql_engine
sql_engine-IsEngine = record {
  tsql = tsql-IsTsql;
  timer = clock-IsTimer;
  send_later = λ endpoint key body s. omega arith;
}

pub sql_engine-IsUp : IsUp sql_engine
sql_engine-IsUp = record {
  enabled = refl;
  builds = λ r. (tt, refl);
  answers = λ body s. (record { status = 204; body = ok [] }, refl, refl);
  reflexive = text_eq_refl;
}

abbrev pub weighed : Text → Option ℕ → ℕ → WeightRow
weighed serial_no flag at = record {
  serial_no = some serial_no;
  is_upload_cloud = flag;
  del_flag = none;
  update_time = none;
  second_time = none;
  first_time = none;
  gross_time = some at;
  other_columns = 0;
}

-- Two rows wait, the second one is older; the third is uploaded.
abbrev pub world : World ℕ
world = record {
  db = record {
    rows =
        weighed (codes "W1") none 9
        ∷ weighed (codes "W2") (some 0) 4
        ∷ weighed (codes "W3") (some 1) 2
        ∷ [];
    faults = [];
  };
  outside = 7;
}

converts :
    (serial_no : Text) (flag : Option ℕ) (at : ℕ)
    → trim serial_no ≢ []
    → IsConvertible driver tsql (weighed serial_no flag at)
unfolding column_value_to_json format_datetime
converts serial_no flag at filled = record {
  serial = serial_no;
  stands = refl;
  given = refl;
  filled = filled;
  columns = no_failure;
}
  where
    no_failure :
        (x : Error)
        → Fails driver
            (tsql.columns_of (weighed serial_no flag at))
            (tsql.columns_of (weighed serial_no flag at)).cells
            x
        → ⊥
    no_failure x (fails_here same) = absurd cc
    no_failure x (fails_later done (fails_here same)) = absurd cc
    no_failure x (fails_later done (fails_later done_too none_left)) = elim none_left [ ]

not_blank : (trim (codes "W1") ≡ codes "W1") × (trim (codes "W2") ≡ codes "W2")
unfolding trim is_whitespace
not_blank = (refl, refl)

pub world-Ready : All (Ready driver tsql) world.db.rows
unfolding is_pending
world-Ready = (
  λ h. converts (codes "W1") none 9 (λ k. let cut = sym not_blank.0 ∙ k in absurd cc),
  (
    λ h. converts (codes "W2") (some 0) 4 (λ k. let cut = sym not_blank.1 ∙ k in absurd cc),
    (λ h. absurd cc, tt),
  ),
)
