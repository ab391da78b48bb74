-- ===== src/Source/SqlServer/Identifier.antt =====
-- source/sqlserver.rs: the names in a statement.
use weighing_data_sync.Prelude.{
  ℕ, Bool, ◌&&◌, ◌||◌, not, leb, ◌==◌, all, is_empty, List, [], ◌∷◌, ◌++◌, map, Text, codes,
}
use weighing_data_sync.Anyhow.{Error, Result, ensure}
use weighing_data_sync.Text.{replace, join}

abbrev pub weight_info_columns : List Text
weight_info_columns =
    codes "serialNo"
    ∷ codes "sysNo"
    ∷ codes "setId"
    ∷ codes "cardNo"
    ∷ codes "plateNo"
    ∷ codes "weightType"
    ∷ codes "transportUnit"
    ∷ codes "forwardingUnit"
    ∷ codes "consigneeUnit"
    ∷ codes "goodsName"
    ∷ codes "goodsSpec"
    ∷ codes "grossWeight"
    ∷ codes "tareWeight"
    ∷ codes "netWeight"
    ∷ codes "buckleWeight"
    ∷ codes "actualWeight"
    ∷ codes "weightUnit"
    ∷ codes "unitPrice"
    ∷ codes "sumAmt"
    ∷ codes "scaleNum"
    ∷ codes "squareNum"
    ∷ codes "weighingFee"
    ∷ codes "grossStation"
    ∷ codes "tareStation"
    ∷ codes "grossMan"
    ∷ codes "tareMan"
    ∷ codes "grossTime"
    ∷ codes "tareTime"
    ∷ codes "firstTime"
    ∷ codes "secondTime"
    ∷ codes "updateTime"
    ∷ codes "printNum"
    ∷ codes "isCancle"
    ∷ codes "isUploadLocal"
    ∷ codes "isUploadCloud"
    ∷ codes "strBackup1"
    ∷ codes "strBackup2"
    ∷ codes "strBackup3"
    ∷ codes "strBackup4"
    ∷ codes "strBackup5"
    ∷ codes "strBackup6"
    ∷ codes "strBackup7"
    ∷ codes "strBackup8"
    ∷ codes "strBackup9"
    ∷ codes "numBackup1"
    ∷ codes "numBackup2"
    ∷ codes "numBackup3"
    ∷ codes "numBackup4"
    ∷ codes "numBackup5"
    ∷ codes "numBackup6"
    ∷ codes "numBackup7"
    ∷ codes "numBackup8"
    ∷ codes "numBackup9"
    ∷ codes "timeBackup1"
    ∷ codes "timeBackup2"
    ∷ codes "timeBackup3"
    ∷ codes "fGuid"
    ∷ codes "fID"
    ∷ codes "relNo"
    ∷ codes "relSer"
    ∷ codes "regNo"
    ∷ codes "dataType"
    ∷ codes "dataLog"
    ∷ codes "isFinish"
    ∷ codes "remark"
    ∷ codes "del_flag"
    ∷ []

-- `[` and `]`.
abbrev pub open_bracket : ℕ
open_bracket = 0x5b

abbrev pub close_bracket : ℕ
close_bracket = 0x5d

unfoldable pub quoted_identifier : Text → Text
unfolding replace
quoted_identifier identifier =
    open_bracket
    ∷ (replace close_bracket (close_bracket ∷ close_bracket ∷ []) identifier ++ close_bracket ∷ [])

unfoldable pub select_columns : Text
unfolding quoted_identifier join
select_columns = join (codes ", ") (map quoted_identifier weight_info_columns)

abbrev pub is_ascii_alphanumeric : ℕ → Bool
is_ascii_alphanumeric c =
    (leb 0x30 c && leb c 0x39) || ((leb 0x41 c && leb c 0x5a) || (leb 0x61 c && leb c 0x7a))

-- A letter, a digit, `_` or `.`.
abbrev pub is_identifier_char : ℕ → Bool
is_identifier_char c = is_ascii_alphanumeric c || (c == 0x5f || c == 0x2e)

unfoldable pub validate_identifier : Text → Result Error (Unit {0})
validate_identifier identifier =
    ensure (not (is_empty identifier || not (all is_identifier_char identifier)))
      (codes "invalid SQL Server identifier: " ++ identifier)
