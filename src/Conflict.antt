-- ===== src/Conflict.antt =====
-- internal/conflict: the overlap of two tasks' changes, the detector and the stored warnings. Git and the
-- semantic assessor are arguments of what uses them.
pub mod Paths
pub mod Defs
pub mod Sets
pub mod Sorting
pub mod Overlap
pub mod Kinds
pub mod Detector
pub mod Semantic
pub mod Records
pub mod Pairs
pub mod Desired
pub mod Loops
pub mod Reconcile
pub mod Refusal
