-- ===== src/Markdown/Reading.antt =====
-- How CommonMark reads backslash escapes, and what it reads in an escaped line.
use slang_server_extended.Base.{
  not, is_nil, is_space, is_alnum, ℕ, List, [], ◌∷◌, ◌++◌, Bool, true, false, ◌&&◌, ◌||◌, ◌==◌,
  if◌then◌else◌, ◌≡◌, ◌≢◌, refl, sym, ap, ◌∙◌, arith, Bytes, between, Bool-cases, inl, inr,
}
use mathlib.Core.Bool.{true≢false}
use slang_server_extended.Markdown.Escape.{
  front_is, back_is, space_surrounds, word_surrounds, needs_leading_escape_plaintext, escape_from,
  escape_markdown_line,
}

-- CommonMark's ASCII punctuation characters.
abbrev pub is_punctuation : ℕ → Bool
is_punctuation c = between 33 47 c || between 58 64 c || between 91 96 c || between 123 126 c

-- The characters of a line, each with whether a backslash escapes it; a backslash before anything but
-- punctuation stands for itself.
unfoldable pub characters : Bytes → List (Bool × ℕ)
characters [] = []
characters (c ∷ []) = (false, c) ∷ []
characters (c ∷ d ∷ s) =
    let rest = characters s in
    let plain = characters (d ∷ s) in
    if c == 92 && is_punctuation d then (true, d) ∷ rest else (false, c) ∷ plain

-- Each character of a line with whether it is one that needs an escape where it stands.
unfoldable pub marked : Bytes → Bytes → List (Bool × ℕ)
marked before [] = []
marked before (c ∷ after) =
    (needs_leading_escape_plaintext c before after true, c) ∷ marked (before ++ (c ∷ [])) after

abbrev pub text_of : List (Bool × ℕ) → Bytes
text_of [] = []
text_of ((e, c) ∷ s) = c ∷ text_of s

-- No branch of the switch is for a character that is not punctuation.
no_case :
    (c : ℕ) (a1 a2 a3 a4 a5 a6 a7 a8 a9 a10 a11 a12 : Bool)
    → is_punctuation c ≡ false
    → (if c == 92 || c == b'`'
        then true
        else if c == b'~'
        then a1
        else if c == b'#'
        then a2
        else if c == b']'
        then a3
        else if c == b'='
        then a4
        else if c == b'_'
        then a5
        else if c == b'-'
        then a6
        else if c == b'+'
        then a7
        else if c == b'*'
        then a8
        else if c == b'<'
        then a9
        else if c == b'>'
        then a10
        else if c == b'&'
        then a11
        else if c == b'.' || c == b')'
        then a12
        else false)
      ≡ false
no_case c a1 a2 a3 a4 a5 a6 a7 a8 a9 a10 a11 a12 h = ground arith

pub needs-punctuation :
    (c : ℕ) (before after : Bytes)
    → needs_leading_escape_plaintext c before after true ≡ true
    → is_punctuation c ≡ true
unfolding needs_leading_escape_plaintext
needs-punctuation c before after h = elim (Bool-cases (is_punctuation c)) [
  | inl is ↦ is
  | inr other ↦ elim (true≢false (sym h ∙ no_case c _ _ _ _ _ _ _ _ _ _ _ _ other)) [ ]
]

needs-backslash :
    (before after : Bytes) → needs_leading_escape_plaintext 92 before after true ≡ true
unfolding needs_leading_escape_plaintext
needs-backslash before after = refl

characters-plain : (c : ℕ) (s : Bytes) → c ≢ 92 → characters (c ∷ s) ≡ (false, c) ∷ characters s
unfolding characters
characters-plain c [] h = refl
characters-plain c (d ∷ s) h = ground arith

characters-escaped :
    (c : ℕ) (s : Bytes)
    → is_punctuation c ≡ true
    → characters (92 ∷ c ∷ s) ≡ (true, c) ∷ characters s
unfolding characters
characters-escaped c s h = ground (arith, h)

-- One step of the loop, the need for an escape a parameter.
characters-step :
    (b : Bool) (c : ℕ) (s : Bytes)
    → (b ≡ true → is_punctuation c ≡ true)
    → (b ≡ false → c ≢ 92)
    → characters (if b then 92 ∷ c ∷ s else c ∷ s) ≡ (b, c) ∷ characters s
characters-step true c s p n = characters-escaped c s (p refl)
characters-step false c s p n = characters-plain c s (n refl)

needs-other :
    (c : ℕ) (before after : Bytes)
    → needs_leading_escape_plaintext c before after true ≡ false
    → c ≢ 92
needs-other c before after h e = true≢false (
    sym (needs-backslash before after)
    ∙ ap (λ k. needs_leading_escape_plaintext k before after true) (sym e)
    ∙ h)

characters-escape_from : (before s : Bytes) → characters (escape_from before s) ≡ marked before s
unfolding escape_from marked characters
characters-escape_from before [] = refl
characters-escape_from before (c ∷ s) =
    characters-step (needs_leading_escape_plaintext c before s true) c
      (escape_from (before ++ (c ∷ [])) s) (needs-punctuation c before s) (needs-other c before s)
    ∙ ap (λ r. (needs_leading_escape_plaintext c before s true, c) ∷ r)
        (characters-escape_from (before ++ (c ∷ [])) s)

text_of-marked : (before s : Bytes) → text_of (marked before s) ≡ s
unfolding marked
text_of-marked before [] = refl
text_of-marked before (c ∷ s) = ap (λ r. c ∷ r) (text_of-marked (before ++ (c ∷ [])) s)

-- A space on both sides, or an end of the line.
abbrev pub is_lonely : Bytes → Bytes → Bool
is_lonely before after =
    (is_nil after || front_is is_space after) && (is_nil before || back_is is_space before)

abbrev pub is_inside_word : Bytes → Bytes → Bool
is_inside_word before after = front_is is_alnum after && back_is is_alnum before

-- What may stand without a backslash: no backslash and no backtick, an asterisk that is lonely, an
-- underscore that is lonely or inside a word, and every other character.
abbrev pub is_harmless : ℕ → Bytes → Bytes → Bool
is_harmless c before after =
    not (c == 92)
    && not (c == b'`')
    && (not (c == b'*') || is_lonely before after)
    && (not (c == b'_') || is_lonely before after || is_inside_word before after)

-- Each character that is not escaped is harmless where it stands.
unfoldable pub are_harmless : Bytes → List (Bool × ℕ) → Bool
are_harmless before [] = true
are_harmless before ((e, c) ∷ s) =
    let rest = are_harmless (before ++ (c ∷ [])) s in
    (e || is_harmless c before (text_of s)) && rest

needs-harmless :
    (c : ℕ) (before after : Bytes)
    → needs_leading_escape_plaintext c before after true ≡ false
    → is_harmless c before after ≡ true
unfolding needs_leading_escape_plaintext space_surrounds word_surrounds
needs-harmless c before after h = ground (arith, h)

harmless-step : (b h r : Bool) → (b ≡ false → h ≡ true) → r ≡ true → ((b || h) && r) ≡ true
harmless-step true h r f e = e
harmless-step false h r f e = ground (arith, f, e)

harmless-marked : (before s : Bytes) → are_harmless before (marked before s) ≡ true
unfolding are_harmless marked
harmless-marked before [] = refl
harmless-marked before (c ∷ s) =
    harmless-step (needs_leading_escape_plaintext c before s true) _ _
      (λ h.
        ap (is_harmless c before) (text_of-marked (before ++ (c ∷ [])) s)
        ∙ needs-harmless c before s h)
      (harmless-marked (before ++ (c ∷ [])) s)

-- Reading the backslash escapes of an escaped line gives the characters of the line back. Each
-- backslash and each backtick of the line is escaped, each asterisk that has not a space or an end of
-- the line on both sides is, and so is each underscore that has not, and is not inside a word.
pub characters-escape_markdown_line :
    (line : Bytes)
    → (text_of (characters (escape_markdown_line line)) ≡ line)
      × (are_harmless [] (characters (escape_markdown_line line)) ≡ true)
unfolding escape_markdown_line
characters-escape_markdown_line line =
    let read = characters-escape_from [] line in
    (ap text_of read ∙ text_of-marked [] line, ap (are_harmless []) read ∙ harmless-marked [] line)
