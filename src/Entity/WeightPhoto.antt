-- ===== src/Entity/WeightPhoto.antt =====
-- entity/weight_photo.rs: the columns of `tbl_weightPhoto` as the ORM's model declares them.
use weighing_data_sync.Prelude.{List, [], ◌∷◌, codes}
use weighing_data_sync.Entity.WeightInfo.{
  string, date_time, integer, big_integer, bytes, Column, optional, required,
}

-- The fields of `Model`, in order; the first one is the primary key.
abbrev pub photo_columns : List Column
photo_columns =
    required (codes "id") big_integer
    ∷ optional (codes "serialNo") string
    ∷ optional (codes "plateNumber") string
    ∷ optional (codes "imageType") string
    ∷ optional (codes "captureTime") date_time
    ∷ optional (codes "captureImage") bytes
    ∷ optional (codes "clientId") string
    ∷ optional (codes "consigneeUnit") string
    ∷ optional (codes "forwardingUnit") string
    ∷ optional (codes "delFlag") integer
    ∷ []
