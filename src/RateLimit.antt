-- ===== src/RateLimit.antt =====
-- src/ratelimit.rs: token buckets, one for each client.
pub mod Basic
pub mod Bucket
pub mod Window
pub mod Keys
pub mod Clients
pub mod Product
