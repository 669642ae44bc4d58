-- ===== src/Indexer/Consistency.antt =====
-- The index against the record of what each indexed file contributed.
pub mod Loops
pub mod Files
pub mod Steps
pub mod Operations
pub mod Watch
pub mod Batch
