-- ===== src/Markdown.antt =====
-- src/util/Markdown.cpp and include/util/Markdown.h: paragraphs and documents of Markdown, and the
-- escaping of a line of plain text.
pub mod Escape
pub mod Reading
pub mod Blocks
pub mod Paragraph
pub mod Spans
pub mod Document
mod Samples
