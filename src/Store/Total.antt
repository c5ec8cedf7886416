-- ===== src/Store/Total.antt =====
-- internal/task/store.go: what the operations answer when no statement fails.
pub mod Perform
pub mod Answers
