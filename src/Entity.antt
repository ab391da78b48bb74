-- ===== src/Entity.antt =====
-- entity/: the models of the ORM.
pub mod WeightInfo
pub mod WeightPhoto
