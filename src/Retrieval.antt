-- ===== src/Retrieval.antt =====
-- The packing of retrieved evidence into a prompt (modules/retrieval).
pub mod Packing
pub mod Packed
mod Tests
