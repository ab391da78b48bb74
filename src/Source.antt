-- ===== src/Source.antt =====
-- src/source: where weighing data comes from.
pub mod SqlServer
