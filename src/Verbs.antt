-- ===== src/Verbs.antt =====
-- packages/broker/src/verbs: what every call goes through before it touches data, and the writes.
pub mod Guard
pub mod Mutate
pub mod Propose
pub mod History
pub mod Revert
