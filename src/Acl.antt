-- ===== src/Acl.antt =====
-- packages/broker/src/acl: who a caller is, and which documents an access list lets them see.
pub mod Principals
pub mod Groups
mod Tests
