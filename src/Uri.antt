-- ===== src/Uri.antt =====
-- The class URI of include/lsp/URI.h and src/lsp/URI.cpp: percent coding, the one string with the
-- places of its five components, and file URIs. The POSIX build is modelled (no _WIN32 branches).
pub mod Codec
pub mod Layout
mod Samples
