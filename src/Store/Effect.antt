-- ===== src/Store/Effect.antt =====
-- store.go: what a transaction that succeeds has done to the tables.
pub mod Statements
pub mod Apply
