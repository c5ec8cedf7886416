-- ===== src/Runner.antt =====
-- internal/runner: executor.go and publish.go, the execution of a claimed attempt.
pub mod Defs
pub mod Fence
pub mod Checks
pub mod Provision
pub mod Publish
pub mod Pulls
pub mod Drive
pub mod Execute
pub mod Path
pub mod Rounds
