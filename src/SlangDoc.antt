-- ===== src/SlangDoc.antt =====
-- The text of an open document and the diagnostics of an include fragment: document/SlangDoc.cpp.
pub mod Defs
pub mod Splices
pub mod Edits
pub mod Protocol
pub mod Fragments
pub mod Union
pub mod Perspectives
pub mod Samples
