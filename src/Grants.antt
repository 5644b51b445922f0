-- ===== src/Grants.antt =====
-- packages/broker/src/grants: who was granted what, and which documents a grant reaches.
pub mod Filters
pub mod Table
pub mod Eval
pub mod Manage
pub mod Approval
pub mod Decide
