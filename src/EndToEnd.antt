-- ===== src/EndToEnd.antt =====
-- Both programs together: what one end does, and what the other makes of it.
pub mod Turn
pub mod Upload
pub mod Sync
