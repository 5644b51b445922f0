-- ===== src/Verbs/Mutate.antt =====
-- packages/broker/src/verbs/mutate.ts: one write of one document.
pub mod Intent
pub mod Dispatch
pub mod Admission
pub mod Dataset
pub mod Laws
pub mod Atomic
mod Tests
