-- ===== src/Fsstore.antt =====
-- internal/adapters/workspace/fsstore
pub mod Blobs
pub mod Workspace
