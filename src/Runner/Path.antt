-- ===== src/Runner/Path.antt =====
-- internal/runner: which calls the executor makes, whatever it is answered.
pub mod Defs
pub mod Rules
pub mod Fence
pub mod Checks
pub mod Provision
pub mod Publish
pub mod Pulls
pub mod Agent
pub mod Session
pub mod Drive
pub mod Stages
pub mod Execute
pub mod Recorded
