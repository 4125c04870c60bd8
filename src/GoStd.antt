-- ===== src/GoStd.antt =====
-- The parts of Go's standard library that the program computes with.
pub mod ParseBool
pub mod Decimal
pub mod Bufio
pub mod Base64
pub mod Hex
