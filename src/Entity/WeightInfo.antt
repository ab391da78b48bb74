-- ===== src/Entity/WeightInfo.antt =====
-- entity/weight_info.rs: the columns of `tbl_weightInfo` as the ORM's model declares them.
pub mod Uploaded
use weighing_data_sync.Prelude.{Bool, true, false, List, [], ◌∷◌, Text, codes}

-- The types of the fields.
pub data ColumnKind : Type 0 where
  string decimal date_time integer big_integer guid bytes : ColumnKind

-- `nullable` is whether the field is an `Option`.
pub record Column : Type 0 where
  pub name : Text
  pub kind : ColumnKind
  pub nullable : Bool

abbrev pub optional : Text → ColumnKind → Column
optional name kind = record { name = name; kind = kind; nullable = true }

abbrev pub required : Text → ColumnKind → Column
required name kind = record { name = name; kind = kind; nullable = false }

-- The fields of `Model`, in order; the first one is the primary key.
abbrev pub model_columns : List Column
model_columns =
    required (codes "serialNo") string
    ∷ optional (codes "sysNo") string
    ∷ optional (codes "setId") string
    ∷ optional (codes "cardNo") string
    ∷ optional (codes "plateNo") string
    ∷ optional (codes "weightType") string
    ∷ optional (codes "transportUnit") string
    ∷ optional (codes "forwardingUnit") string
    ∷ optional (codes "consigneeUnit") string
    ∷ optional (codes "goodsName") string
    ∷ optional (codes "goodsSpec") string
    ∷ optional (codes "grossWeight") decimal
    ∷ optional (codes "tareWeight") decimal
    ∷ optional (codes "netWeight") decimal
    ∷ optional (codes "buckleWeight") decimal
    ∷ optional (codes "actualWeight") decimal
    ∷ optional (codes "weightUnit") string
    ∷ optional (codes "unitPrice") decimal
    ∷ optional (codes "sumAmt") decimal
    ∷ optional (codes "scaleNum") string
    ∷ optional (codes "squareNum") string
    ∷ optional (codes "weighingFee") decimal
    ∷ optional (codes "grossStation") string
    ∷ optional (codes "tareStation") string
    ∷ optional (codes "grossMan") string
    ∷ optional (codes "tareMan") string
    ∷ optional (codes "grossTime") date_time
    ∷ optional (codes "tareTime") date_time
    ∷ optional (codes "firstTime") date_time
    ∷ optional (codes "secondTime") date_time
    ∷ optional (codes "updateTime") date_time
    ∷ optional (codes "printNum") integer
    ∷ optional (codes "isCancle") integer
    ∷ optional (codes "isUploadLocal") integer
    ∷ optional (codes "isUploadCloud") integer
    ∷ optional (codes "strBackup1") string
    ∷ optional (codes "strBackup2") string
    ∷ optional (codes "strBackup3") string
    ∷ optional (codes "strBackup4") string
    ∷ optional (codes "strBackup5") string
    ∷ optional (codes "strBackup6") string
    ∷ optional (codes "strBackup7") string
    ∷ optional (codes "strBackup8") string
    ∷ optional (codes "strBackup9") string
    ∷ optional (codes "numBackup1") decimal
    ∷ optional (codes "numBackup2") decimal
    ∷ optional (codes "numBackup3") decimal
    ∷ optional (codes "numBackup4") decimal
    ∷ optional (codes "numBackup5") decimal
    ∷ optional (codes "numBackup6") decimal
    ∷ optional (codes "numBackup7") decimal
    ∷ optional (codes "numBackup8") decimal
    ∷ optional (codes "numBackup9") decimal
    ∷ optional (codes "timeBackup1") date_time
    ∷ optional (codes "timeBackup2") date_time
    ∷ optional (codes "timeBackup3") date_time
    ∷ optional (codes "fGuid") guid
    ∷ optional (codes "fID") big_integer
    ∷ optional (codes "relNo") string
    ∷ optional (codes "relSer") string
    ∷ optional (codes "regNo") string
    ∷ optional (codes "dataType") string
    ∷ optional (codes "dataLog") string
    ∷ optional (codes "isFinish") integer
    ∷ optional (codes "remark") string
    ∷ optional (codes "del_flag") integer
    ∷ []
