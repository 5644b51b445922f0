-- ===== src/Workspaces.antt =====
-- packages/broker/src/workspaces
pub mod Members
