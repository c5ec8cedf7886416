-- ===== src/Chars.antt =====
-- The operations of Go's `strings` on texts as lists of code points.
pub mod Defs
pub mod Order
pub mod Same
