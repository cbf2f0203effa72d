-- ===== src/Text.antt =====
-- The text routines that the components share: decimal numbers, upper case, percent encoding.
pub mod Upper
pub mod Decimal
pub mod Percent
pub mod Find
