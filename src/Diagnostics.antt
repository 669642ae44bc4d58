-- ===== src/Diagnostics.antt =====
-- ServerDiagClient of include/ServerDiagClient.h and src/ServerDiagClient.cpp: which diagnostics the
-- server holds for each document, and what it has told the editor of them.
pub mod Locations
pub mod Defs
pub mod Sync
pub mod Ranges
pub mod Operations
mod Samples
