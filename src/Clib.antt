-- ===== src/Clib.antt =====
-- The C library functions that src/sysinfo.cpp calls, on C strings in the "C" locale: `isspace`,
-- `strtol`, `strtoll`, `strtoull` (Strto) and the conversions of `snprintf` (Printf).
pub mod Chars
pub mod Strto
pub mod Printf
pub mod Scanf
pub mod Numbers
