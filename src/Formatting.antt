-- ===== src/Formatting.antt =====
-- src/util/Formatting.cpp: the texts of declarations, tidied up for display.
pub mod Defs
pub mod Spaces
pub mod Squash
mod Samples
