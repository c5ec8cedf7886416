-- ===== src/Fleet.antt =====
-- internal/runner/store.go: the table of the runners.
pub mod Defs
pub mod Offline
