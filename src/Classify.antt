-- ===== src/Classify.antt =====
-- src/logic.rs: the kind of network that an address belongs to.
pub mod Basic
pub mod Ladder
