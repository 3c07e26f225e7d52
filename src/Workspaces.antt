-- ===== src/Workspaces.antt =====
-- The life of a workspace: its deletion, control-plane/src/workspace-delete.ts.
pub mod Drain
pub mod Deletion
