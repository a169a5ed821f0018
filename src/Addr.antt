-- ===== src/Addr.antt =====
-- `std::net::IpAddr`: the addresses, their canonical form and their classes.
pub mod Basic
pub mod Print
pub mod Parse
pub mod Digits
pub mod Groups
pub mod Runs
pub mod RoundTrip
pub mod Mapped
pub mod Range
