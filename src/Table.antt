-- ===== src/Table.antt =====
-- Tables of rows, with the SQL statements that the stores use: SELECT … WHERE, EXISTS, count(*),
-- UPDATE … WHERE, MAX.
mod Defs
mod Laws
unfoldable pub use Defs.*
pub use Laws.*
