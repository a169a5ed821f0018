-- ===== src/Examples.antt =====
-- The theorems at concrete inputs.
mod Setting
mod Limits
mod Headers
mod Service
mod Server
mod Judge
mod Files
mod Orders
