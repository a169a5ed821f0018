-- ===== src/Geo.antt =====
-- src/geo.rs: the local databases.
pub mod Value
pub mod Info
pub mod Pool
pub mod Open
pub mod Fields
pub mod Verify
pub mod Kinds
pub mod Notices
