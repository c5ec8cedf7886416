-- ===== src/Store/Invariant.antt =====
-- store.go: what holds of the tables between two transactions. The migrations state these facts
-- as constraints (migrations/00002); here they are proved of what the code writes.
pub mod Defs
pub mod Attempts
pub mod Insert
pub mod Events
pub mod Tasks
pub mod Moves
pub mod Apply
pub mod Create
pub mod Operations
pub mod Creation
pub mod Records
pub mod Columns
