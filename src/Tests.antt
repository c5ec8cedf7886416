-- ===== src/Tests.antt =====
-- Runs of the operations on concrete tables, and the theorems applied to them.
mod Data
mod Witnesses
mod Leases
mod Pages
mod Dispatch
mod Fleet
mod Git
mod Validation
mod Conflict
mod GitHub
mod Runner
