-- ===== src/Programs.antt =====
-- The two programs: cmd/server/main.go and cmd/client/main.go.
pub mod Server
pub mod Client
