-- ===== src/Std.antt =====
-- What the program takes from Rust's standard library.
pub mod Int
pub mod Digits
pub mod Decimal
pub mod Paths
