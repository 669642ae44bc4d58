-- ===== src/Markdown/Blocks.antt =====
-- The markers that open blocks in CommonMark, in the first column and with a space behind them, and
-- escaped lines. Indented markers, and those with a tab behind them, are left aside.
use slang_server_extended.Base.{
  ℕ, [], ◌∷◌, ◌++◌, Bool, true, false, ◌&&◌, ◌||◌, ◌==◌, if◌then◌else◌, ◌≡◌, refl, arith, Bytes,
  is_nil, all_of, is_digit, starts_with, codes,
}
use slang_server_extended.Markdown.Escape.{
  needs_leading_escape_plaintext, escape_from, escape_markdown_line, drop_while, is_heading_rest,
  is_bullet,
}
use slang_server_extended.Markdown.Reading.{is_punctuation, needs-punctuation}

-- The end of a block's marker: the end of the line, or a space.
abbrev pub ends_marker : Bytes → Bool
ends_marker s = is_nil s || starts_with s (codes " ")

abbrev pub opens_quote : Bytes → Bool
opens_quote s = starts_with s (codes ">")

abbrev pub opens_bullet : Bytes → Bool
opens_bullet [] = false
opens_bullet (c ∷ s) = (c == b'-' || c == b'+' || c == b'*') && ends_marker s

abbrev pub hashes_end : Bytes → Bool
hashes_end [] = true
hashes_end (c ∷ s) = if c == b'#' then hashes_end s else c == 32

-- Hash signs, any number of them, and the end of the marker.
abbrev pub opens_heading : Bytes → Bool
opens_heading [] = false
opens_heading (c ∷ s) = c == b'#' && hashes_end s

-- Digits, a dot or a parenthesis, and a space; `seen` tells whether there was a digit.
abbrev pub opens_ordered : Bool → Bytes → Bool
opens_ordered seen [] = false
opens_ordered seen (c ∷ s) =
    if is_digit c
    then opens_ordered true s
    else seen && (c == b'.' || c == b')') && starts_with s (codes " ")

-- One step of the loop, the need for an escape a parameter.
module _ (b : Bool) (c : ℕ) (s : Bytes) (p : b ≡ true → is_punctuation c ≡ true) where
  ends_marker-step : ends_marker (if b then 92 ∷ c ∷ s else c ∷ s) ≡ (c == 32)
  ends_marker-step = ground (arith, p)

  space-step : starts_with (if b then 92 ∷ c ∷ s else c ∷ s) (codes " ") ≡ (c == 32)
  space-step = ground (arith, p)

  hashes_end-step :
      (t : Bytes)
      → hashes_end s ≡ hashes_end t
      → (c ≡ b'#' → b ≡ false)
      → hashes_end (if b then 92 ∷ c ∷ s else c ∷ s) ≡ hashes_end (c ∷ t)
  hashes_end-step t e h = ground (arith, p, e, h)

ends_marker-escape_from : (before s : Bytes) → ends_marker (escape_from before s) ≡ ends_marker s
unfolding escape_from
ends_marker-escape_from before [] = refl
ends_marker-escape_from before (c ∷ s) =
    let step =
      ends_marker-step (needs_leading_escape_plaintext c before s true) c
        (escape_from (before ++ (c ∷ [])) s) (needs-punctuation c before s) in
    ground (arith, step)

space-escape_from :
    (before s : Bytes) → starts_with (escape_from before s) (codes " ") ≡ starts_with s (codes " ")
unfolding escape_from
space-escape_from before [] = refl
space-escape_from before (c ∷ s) =
    let step =
      space-step (needs_leading_escape_plaintext c before s true) c
        (escape_from (before ++ (c ∷ [])) s) (needs-punctuation c before s) in
    ground (arith, step)

needs-inner_hash :
    (c d : ℕ) (before s : Bytes)
    → c ≡ b'#'
    → needs_leading_escape_plaintext c (d ∷ before) s true ≡ false
unfolding needs_leading_escape_plaintext
needs-inner_hash c d before s e = rw e refl

hashes_end-escape_from :
    (d : ℕ) (before s : Bytes) → hashes_end (escape_from (d ∷ before) s) ≡ hashes_end s
unfolding escape_from
hashes_end-escape_from d before [] = refl
hashes_end-escape_from d before (c ∷ s) =
    hashes_end-step (needs_leading_escape_plaintext c (d ∷ before) s true) c
      (escape_from (d ∷ (before ++ (c ∷ []))) s) (needs-punctuation c (d ∷ before) s) s
      (hashes_end-escape_from d (before ++ (c ∷ [])) s) (needs-inner_hash c d before s)

is_heading_rest-hashes_end : (s : Bytes) → is_heading_rest s ≡ hashes_end s
unfolding is_heading_rest drop_while
is_heading_rest-hashes_end [] = refl
is_heading_rest-hashes_end (c ∷ s) = ground (arith, is_heading_rest-hashes_end s)

needs-quote : (c : ℕ) (s : Bytes) → c ≡ b'>' → needs_leading_escape_plaintext c [] s true ≡ true
unfolding needs_leading_escape_plaintext
needs-quote c s e = rw e refl

needs-heading :
    (c : ℕ) (s : Bytes)
    → c ≡ b'#'
    → hashes_end s ≡ true
    → needs_leading_escape_plaintext c [] s true ≡ true
unfolding needs_leading_escape_plaintext
needs-heading c s e h = rw (e, is_heading_rest-hashes_end s) h

needs-bullet :
    (c : ℕ) (s : Bytes)
    → (c == b'-' || c == b'+' || c == b'*') ≡ true
    → ends_marker s ≡ true
    → needs_leading_escape_plaintext c [] s true ≡ true
unfolding needs_leading_escape_plaintext is_bullet
needs-bullet c s e h = ground (arith, e, h)

needs-ordered :
    (c d : ℕ) (before s : Bytes)
    → (c == b'.' || c == b')') ≡ true
    → all_of is_digit (d ∷ before) ≡ true
    → starts_with s (codes " ") ≡ true
    → needs_leading_escape_plaintext c (d ∷ before) s true ≡ true
unfolding needs_leading_escape_plaintext
needs-ordered c d before s e h k = ground (arith, e, h, k)

ordered-step :
    (seen b : Bool) (c : ℕ) (r s : Bytes)
    → (b ≡ true → is_punctuation c ≡ true)
    → starts_with r (codes " ") ≡ starts_with s (codes " ")
    → (seen ≡ true → (c == b'.' || c == b')') ≡ true → starts_with s (codes " ") ≡ true → b ≡ true)
    → (is_digit c ≡ true → opens_ordered true r ≡ false)
    → opens_ordered seen (if b then 92 ∷ c ∷ r else c ∷ r) ≡ false
ordered-step seen b c r s p e q h = ground (arith, p, e, q, h)

all_digits-snoc :
    (c : ℕ) (s : Bytes)
    → all_of is_digit s ≡ true
    → is_digit c ≡ true
    → all_of is_digit (s ++ (c ∷ [])) ≡ true
all_digits-snoc c [] h d = ground (arith, d)
all_digits-snoc c (e ∷ s) h d = ground (arith, h, d, all_digits-snoc c s)

ordered-escape_from :
    (d : ℕ) (before s : Bytes)
    → all_of is_digit (d ∷ before) ≡ true
    → opens_ordered true (escape_from (d ∷ before) s) ≡ false
unfolding escape_from
ordered-escape_from d before [] h = refl
ordered-escape_from d before (c ∷ s) h =
    ordered-step true (needs_leading_escape_plaintext c (d ∷ before) s true) c
      (escape_from (d ∷ (before ++ (c ∷ []))) s) s (needs-punctuation c (d ∷ before) s)
      (space-escape_from (d ∷ (before ++ (c ∷ []))) s) (λ _ e k. needs-ordered c d before s e h k)
      (λ k. ordered-escape_from d (before ++ (c ∷ [])) s (all_digits-snoc c (d ∷ before) h k))

first-step :
    (b : Bool) (c : ℕ) (r s : Bytes)
    → (c ≡ b'>' → b ≡ true)
    → ((c == b'-' || c == b'+' || c == b'*') ≡ true → ends_marker s ≡ true → b ≡ true)
    → (c ≡ b'#' → hashes_end s ≡ true → b ≡ true)
    → ends_marker r ≡ ends_marker s
    → hashes_end r ≡ hashes_end s
    → (opens_quote (if b then 92 ∷ c ∷ r else c ∷ r) ≡ false)
      × (opens_bullet (if b then 92 ∷ c ∷ r else c ∷ r) ≡ false)
      × (opens_heading (if b then 92 ∷ c ∷ r else c ∷ r) ≡ false)
first-step true c r s q u a m h = (refl, refl, refl)
first-step false c r s q u a m h = (ground (arith, q), ground (arith, u, m), ground (arith, a, h))

-- An escaped line does not begin, in its first column, with `>`, with a bullet and a space or the end of
-- the line behind it, with hash signs and a space or the end of the line behind them, or with digits,
-- a dot or a parenthesis, and a space.
pub opens_block-escape_markdown_line :
    (line : Bytes)
    → (opens_quote (escape_markdown_line line) ≡ false)
      × (opens_bullet (escape_markdown_line line) ≡ false)
      × (opens_heading (escape_markdown_line line) ≡ false)
      × (opens_ordered false (escape_markdown_line line) ≡ false)
unfolding escape_markdown_line escape_from
opens_block-escape_markdown_line [] = (refl, refl, refl, refl)
opens_block-escape_markdown_line (c ∷ s) =
    let needs = needs_leading_escape_plaintext c [] s true in
    let rest = escape_from (c ∷ []) s in
    let first =
      first-step needs c rest s (needs-quote c s) (needs-bullet c s) (needs-heading c s)
        (ends_marker-escape_from (c ∷ []) s) (hashes_end-escape_from c [] s) in
    (
      first.0,
      first.1,
      first.2,
      ordered-step false needs c rest s (needs-punctuation c [] s) (space-escape_from (c ∷ []) s)
          (λ e. ground (arith, e)) (λ d. ordered-escape_from c [] s (ground (arith, d))),
    )
