-- ===== src/Server.antt =====
-- src/server.rs: the accept loop.
pub mod Basic
pub mod Moves
pub mod Permits
pub mod Shutdown
pub mod Peer
