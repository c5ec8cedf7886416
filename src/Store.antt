-- ===== src/Store.antt =====
-- internal/task/store.go: the only writer of task statuses. Every operation is one transaction
-- over the tables of `Db`.
pub mod Statements
pub mod Apply
pub mod Operations
pub mod Records
pub mod Effect
pub mod Invariant
pub mod Keeps
pub mod Total
pub mod Reads
pub mod Pages
pub mod Cursor
