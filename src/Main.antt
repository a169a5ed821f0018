-- ===== src/Main.antt =====
-- src/main.rs: the health check and the course of the binary.
pub mod Health
pub mod Reads
pub mod StatusLine
pub mod Healthy
pub mod Run
pub mod Exits
pub mod Signal
