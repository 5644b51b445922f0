-- ===== src/Import.antt =====
-- packages/broker/src/import
pub mod Coerce
