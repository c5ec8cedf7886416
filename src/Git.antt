-- ===== src/Git.antt =====
-- internal/gitworkspace: branch names, commit trailers and what git prints. The git processes are
-- arguments of what uses them.
pub mod Branch
pub mod Slugs
pub mod Commit
pub mod Hunks
pub mod Diffs
pub mod DiffLines
pub mod DiffRanges
pub mod Messages
