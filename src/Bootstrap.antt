-- ===== src/Bootstrap.antt =====
-- The loops of internal/bootstrap/app.go that handle deliveries themselves.
pub mod Batching
pub mod Migrator
pub mod Wiring
pub mod International
