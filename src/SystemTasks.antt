-- ===== src/SystemTasks.antt =====
-- src/completions/SystemTaskCompletions.cpp: the snippet for a system task, built from the text of the
-- signature that documents it.
pub mod Text
pub mod Signature
pub mod Completion
pub mod Trimming
pub mod Brackets
pub mod Arguments
mod Samples
