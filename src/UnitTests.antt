-- ===== src/UnitTests.antt =====
-- The `#[cfg(test)]` modules of src/*.rs: each test as a Boolean, its assertions in their order.
mod Notation
mod Addresses
mod Levels
mod Networks
mod Limits
mod Signing
mod Settings
mod Records
mod Wire
mod Api
mod Answers
mod Verdicts
mod Replies
