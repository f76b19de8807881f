-- ===== src/Generation.antt =====
-- The generation of questions by a model (modules/ai-generation).
pub mod Rows
pub mod Expander
pub mod Asked
pub mod Sorted
pub mod Loops
pub mod Parts
pub mod Expansion
mod Tests
