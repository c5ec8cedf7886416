-- ===== src/Lease.antt =====
-- internal/runner/store.go: runners claim attempts under a lease that expires unless extended.
pub mod Defs
pub mod Choice
pub mod Where
pub mod Invariant
pub mod Held
pub mod Lists
pub mod Dispatch
