-- ===== src/Mmdb.antt =====
-- src/geo.rs, module `test_mmdb`: the writer of the test databases.
pub mod Writer
