-- ===== src/Validation.antt =====
-- internal/validation: the file that declares a repository's checks. The YAML decoder and the file system
-- are arguments of what uses them.
pub mod Defs
pub mod Checks
pub mod Accepted
pub mod Loading
