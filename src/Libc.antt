-- ===== src/Libc.antt =====
-- The parts of the C library that the programs call, over byte strings. A string is the list of
-- its bytes without the NUL. Conversions follow the C standard.
pub mod Chars
pub mod Scan
pub mod Hex
pub mod Rows
