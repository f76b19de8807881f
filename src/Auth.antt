-- ===== src/Auth.antt =====
-- Sessions and one-time tokens (modules/auth).
pub mod Rows
pub mod Tokens
pub mod Runs
pub mod Spent
pub mod Keeps
pub mod Once
pub mod Closing
pub mod Ends
mod Tests
