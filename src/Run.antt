-- ===== src/Run.antt =====
-- The two stores together: any sequence of their operations, by any callers.
pub mod Defs
pub mod Invariant
pub mod Leases
pub mod Owner
pub mod Exclusive
pub mod Final
pub mod Keeps
pub mod Log
