-- ===== src/Indexing.antt =====
-- packages/broker/src/indexing: documents that are stored as chunks.
pub mod Text
pub mod Chunk
