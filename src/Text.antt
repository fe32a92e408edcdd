-- ===== src/Text.antt =====
-- Go strings that the program takes apart, as lists of bytes, and the functions of Go's `strings`
-- and `strconv` packages that the program calls on them.
pub mod Bytes
pub mod Split
pub mod Decimal
pub mod Int64
