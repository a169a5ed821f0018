-- ===== src/Metrics.antt =====
-- src/metrics.rs: the counters and their text form.
pub mod Basic
