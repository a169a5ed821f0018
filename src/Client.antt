-- ===== src/Client.antt =====
-- src/logic.rs: the client address, and the part of X-Forwarded-For that was there before it.
pub mod Basic
pub mod Edge
