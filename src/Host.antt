-- ===== src/Host.antt =====
-- src/logic.rs: the entries of X-Forwarded-For and the addresses in them.
pub mod Basic
pub mod Entries
pub mod Leak
pub mod Canonical
pub mod Normal
