-- ===== src/Tests/Source.antt =====
-- Names in a statement, and rows that are marked.
use weighing_data_sync.Prelude.{
  ℕ, ◌≡◌, refl, true, false, none, some, [], ◌∷◌, ◌++◌, Text, codes, text_eq,
}
use weighing_data_sync.Anyhow.{msg, ok, is_ok}
use weighing_data_sync.Text.{replace, starts_with}
use weighing_data_sync.Config.Defaults.{default_sqlserver}
use weighing_data_sync.Source.SqlServer.{WeightRow, Database, SqlServerSource, mark_uploaded}
use weighing_data_sync.Source.SqlServer.Identifier.{quoted_identifier, validate_identifier}
use weighing_data_sync.Source.SqlServer.Quoting.{read_name, quoted_identifier_lem}
use weighing_data_sync.Source.SqlServer.Marking.{Marked, mark_uploaded-Marked}

quoted_identifier_tests :
    (quoted_identifier (codes "tbl_weightInfo") ≡ codes "[tbl_weightInfo]")
    × (quoted_identifier (codes "a]b") ≡ codes "[a]]b]")
    × (quoted_identifier (codes "]") ≡ codes "[]]]")
unfolding quoted_identifier replace
quoted_identifier_tests = (refl, refl, refl)

validate_identifier_tests :
    (is_ok (validate_identifier (codes "dbo.tbl_weightInfo")) ≡ true)
    × (is_ok (validate_identifier []) ≡ false)
    × (is_ok (validate_identifier (codes "tbl; DROP")) ≡ false)
unfolding validate_identifier
validate_identifier_tests = (refl, refl, refl)

quoted_identifier_lem_example :
    read_name (quoted_identifier (codes "a] SET [b") ++ codes " SET")
    ≡ some (codes "a] SET [b", codes " SET")
unfolding starts_with
quoted_identifier_lem_example = quoted_identifier_lem (codes "a] SET [b") (codes " SET") refl

abbrev row : Text → WeightRow
row serial_no = record {
  serial_no = some serial_no;
  is_upload_cloud = none;
  del_flag = none;
  update_time = none;
  second_time = none;
  first_time = none;
  gross_time = some 3;
  other_columns = 0;
}

-- The connection is opened, and the first statement fails.
abbrev faulty : Database
faulty = record {
  rows = row (codes "1") ∷ row (codes "2") ∷ [];
  faults = none ∷ none ∷ none ∷ some (msg (codes "deadlock")) ∷ [];
}

abbrev source : SqlServerSource
source = record { cfg = default_sqlserver }

abbrev show : ℕ → Text
show n = n ∷ []

mark_uploaded-Marked_example :
    (source.cfg.mark_uploaded ≡ false
      → mark_uploaded text_eq show [] source (codes "2" ∷ []) faulty ≡ (ok tt, faulty))
    × (source.cfg.mark_uploaded ≡ true
        → Marked text_eq
            (codes "2" ∷ [])
            faulty
            (mark_uploaded text_eq show [] source (codes "2" ∷ []) faulty))
mark_uploaded-Marked_example = mark_uploaded-Marked text_eq show [] source (codes "2" ∷ []) faulty
