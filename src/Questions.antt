-- ===== src/Questions.antt =====
-- The bank of questions (modules/questions).
pub mod Rows
pub mod Validator
pub mod Store
pub mod Service
pub mod Answers
pub mod Runs
pub mod Keeps
pub mod Sound
pub mod Access
pub mod Sharing
mod Tests
