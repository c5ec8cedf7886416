-- ===== src/Evidence.antt =====
-- internal/evidence and internal/runner: the report of an attempt, and what its checks conclude.
pub mod Defs
pub mod Claims
pub mod Conclusion
