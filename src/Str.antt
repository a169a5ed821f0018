-- ===== src/Str.antt =====
-- What the program uses of Rust's `str` and `char`.
pub mod Basic
pub mod Find
pub mod Laws
