-- ===== src/Sign.antt =====
-- src/sign.rs: signatures over answers.
pub mod Basic
pub mod Binding
pub mod Nonce
pub mod Debug
