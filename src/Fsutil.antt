-- ===== src/Fsutil.antt =====
-- internal/fsutil/fsutil.go
pub mod Hash
pub mod Diff
pub mod Walk
pub mod Path
pub mod SafeJoin
