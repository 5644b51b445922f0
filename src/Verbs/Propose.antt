-- ===== src/Verbs/Propose.antt =====
-- packages/broker/src/verbs/propose.ts: writes that wait for a second person, and the decisions.
pub mod Decision
pub mod Dataset
pub mod Apply
pub mod Tables
pub mod Decide
pub mod Batch
pub mod Single
pub mod Review
mod Tests
