-- ===== src/Db.antt =====
-- The database, transactions over it, and what a statement that succeeds has done.
mod Defs
mod Inversion
unfoldable pub use Defs.*
pub use Inversion.*
