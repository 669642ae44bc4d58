-- ===== src/Markdown/Samples.antt =====
-- Runs on small texts.
use slang_server_extended.Base.{true, [], ◌∷◌, false, some, ◌≡◌, refl, Bytes, codes}
use slang_server_extended.Markdown.Escape.{escape_markdown_line, needs_leading_escape_plaintext}
use slang_server_extended.Markdown.Reading.{
  characters, text_of, are_harmless, characters-escape_markdown_line,
}
use slang_server_extended.Markdown.Blocks.{
  opens_quote, opens_bullet, opens_heading, opens_ordered, opens_block-escape_markdown_line,
}
use slang_server_extended.Markdown.Paragraph.{code_span, longest_run}
use slang_server_extended.Markdown.Spans.{read_span, read_span-code_span}
use slang_server_extended.Markdown.Document.{Document}

abbrev heading : Bytes
heading = codes "# a*b\\c"

heading_escaped : escape_markdown_line heading ≡ codes "\\# a\\*b\\\\c"
unfolding escape_markdown_line needs_leading_escape_plaintext
heading_escaped = refl

characters-escape_markdown_line_example :
    (text_of (characters (escape_markdown_line heading)) ≡ heading)
    × (are_harmless [] (characters (escape_markdown_line heading)) ≡ true)
characters-escape_markdown_line_example = characters-escape_markdown_line heading

opens_block-escape_markdown_line_example :
    (opens_quote (escape_markdown_line (codes "12. x")) ≡ false)
    × (opens_bullet (escape_markdown_line (codes "12. x")) ≡ false)
    × (opens_heading (escape_markdown_line (codes "12. x")) ≡ false)
    × (opens_ordered false (escape_markdown_line (codes "12. x")) ≡ false)
opens_block-escape_markdown_line_example = opens_block-escape_markdown_line (codes "12. x")

read_span-code_span_example : read_span (code_span (codes "`A``B`")) ≡ some (codes "`A``B`")
unfolding longest_run
read_span-code_span_example = read_span-code_span b'`' (codes "A``B`") refl refl

abbrev one : Document
one = record { paragraphs = record { buffer = codes "one" } ∷ record { buffer = [] } ∷ [] }

abbrev two : Document
two = record { paragraphs = record { buffer = [] } ∷ record { buffer = codes "two" } ∷ [] }
