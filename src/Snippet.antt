-- ===== src/Snippet.antt =====
-- SnippetString of include/lsp/SnippetString.h: the builder of LSP snippet texts, and what a reader
-- of the snippet grammar finds in them.
pub mod Defs
pub mod Reader
pub mod Numbering
mod Samples
