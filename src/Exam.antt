-- ===== src/Exam.antt =====
-- The test builder (modules/tests): tests, their sections and their snapshots of questions.
pub mod Rows
pub mod State
pub mod Access
pub mod Snapshots
pub mod Edit
pub mod Reorder
pub mod Finalize
pub mod Clone
pub mod View
pub mod Service
pub mod Keeps
pub mod Runs
pub mod Frozen
pub mod Ready
pub mod Repeat
pub mod Paper
pub mod Copies
mod Tests
pub mod Sections
pub mod Numbered
pub mod SectionRules
pub mod SectionRuns
pub mod Finalizes
