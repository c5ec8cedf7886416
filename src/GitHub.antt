-- ===== src/GitHub.antt =====
-- internal/github: commands in comments, and what a delivery does to the task store. GitHub's answers are
-- arguments of what uses them.
pub mod Command
pub mod Texts
pub mod Defs
pub mod Handlers
pub mod Authority
pub mod Feedback
pub mod Gathered
