-- ===== src/Config.antt =====
-- src/config.rs: the settings from the environment.
pub mod Basic
pub mod Origin
pub mod Rules
pub mod Probe
