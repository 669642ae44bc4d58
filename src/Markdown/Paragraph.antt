-- ===== src/Markdown/Paragraph.antt =====
-- The appends of a Paragraph, whose state is its buffer.
use slang_server_extended.Base.{
  ℕ, suc, max, [], ◌∷◌, ◌++◌, Bool, ◌||◌, ◌==◌, ltb, if◌then◌else◌, Bytes, is_nil, replicate, codes,
}
use slang_server_extended.Markdown.Escape.{back_is}

pub record Paragraph : Type 0 where
  pub buffer : Bytes

unfoldable pub append_text : Bytes → Paragraph → Paragraph
append_text text p = record p { buffer = p.buffer ++ text }

-- The loop over the backticks: the longest run so far and the current run.
unfoldable pub longest_run : ℕ → ℕ → Bytes → ℕ
longest_run max_backticks current_run [] = max_backticks
longest_run max_backticks current_run (c ∷ s) =
    if c == b'`'
    then longest_run (max max_backticks (suc current_run)) (suc current_run) s
    else longest_run max_backticks 0 s

-- What is formatted behind the loop.
unfoldable pub delimited : ℕ → Bytes → Bytes
delimited max_backticks code =
    let delimiter = replicate (suc max_backticks) b'`' in
    if ltb 0 max_backticks
    then delimiter ++ codes " " ++ code ++ codes " " ++ delimiter
    else delimiter ++ code ++ delimiter

unfoldable pub code_span : Bytes → Bytes
unfolding delimited longest_run
code_span code = delimited (longest_run 0 0 code) code

unfoldable pub append_code : Bytes → Paragraph → Paragraph
unfolding code_span
append_code code p = record p { buffer = p.buffer ++ code_span code }

-- A space, where the buffer has something and does not end in one.
unfoldable pub spaced : Bytes → Bytes
spaced b = if is_nil b || back_is (λ c. c == 32) b then b else b ++ codes " "

unfoldable pub append_bold : Bytes → Paragraph → Paragraph
unfolding spaced
append_bold text p = record p { buffer = spaced p.buffer ++ codes "**" ++ text ++ codes "** " }

unfoldable pub append_header : Bytes → ℕ → Paragraph → Paragraph
unfolding spaced
append_header text level p = record p {
  buffer = spaced p.buffer ++ replicate level b'#' ++ codes " " ++ text;
}

unfoldable pub append_code_block : Bytes → Paragraph → Paragraph
append_code_block code p = record p {
  buffer = p.buffer ++ codes "````systemverilog" ++ (10 ∷ []) ++ code ++ (10 ∷ []) ++ codes "````";
}

unfoldable pub new_line : Paragraph → Paragraph
new_line p = record p { buffer = p.buffer ++ codes "  " ++ (10 ∷ []) }

unfoldable pub append : Paragraph → Paragraph → Paragraph
append q p = if is_nil p.buffer then q else record p { buffer = p.buffer ++ q.buffer }

unfoldable pub is_empty : Paragraph → Bool
is_empty p = is_nil p.buffer
