-- ===== src/Anonymity.antt =====
-- src/logic.rs: the anonymity level of a request.
pub mod Basic
pub mod Levels
pub mod Order
pub mod Unordered
