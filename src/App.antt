-- ===== src/App.antt =====
-- src/app.rs: the HTTP service.
pub mod State
pub mod Request
pub mod Lower
pub mod View
pub mod Order
pub mod Schema
pub mod Shapes
pub mod Answers
pub mod PublicIp
pub mod Rdns
pub mod Endings
pub mod Lookups
pub mod Names
pub mod Middleware
pub mod Layers
pub mod Leaves
pub mod Json
pub mod Handlers
pub mod Token
pub mod Judge
pub mod Verdict
pub mod Signed
pub mod Reply
