-- ===== src/Markdown/Escape.antt =====
-- `escapeMarkdownLine`, `needsLeadingEscapePlaintext` and `looksLikeTag`. A line is its bytes; `before`
-- is kept in the order of the line.
use slang_server_extended.Base.{
  ℕ, ◌+◌, [], ◌∷◌, ◌++◌, Bool, true, false, not, ◌&&◌, ◌||◌, ◌==◌, leb, if◌then◌else◌, Option, none,
  some, length, is_nil, all_of, Bytes, codes, is_alpha, is_alnum, is_digit, is_xdigit, is_space,
  starts_with,
}

unfoldable pub rtrim : Bytes → Bytes
rtrim [] = []
rtrim (c ∷ s) = let r = rtrim s in if is_nil r && is_space c then [] else c ∷ r

abbrev pub is_tag_char : ℕ → Bool
is_tag_char c = is_alnum c || c == b'-' || c == b'_' || c == b':'

unfoldable pub drop_while : (ℕ → Bool) → Bytes → Bytes
drop_while p [] = []
drop_while p (c ∷ s) = if p c then drop_while p s else c ∷ s

-- The loop over the attributes.
unfoldable pub attributes_of_tag : Bytes → Bool
attributes_of_tag [] = true
attributes_of_tag (c ∷ s) =
    let rest = attributes_of_tag s in
    if is_alnum c || is_space c
    then rest
    else c == b'>' || starts_with (c ∷ s) (codes "/>") || c == b'='

unfoldable pub looks_like_tag : Bytes → Bool
unfolding attributes_of_tag drop_while
looks_like_tag [] = false
looks_like_tag (c ∷ s) =
    if c == b'!' || c == b'?' || c == b'/'
    then true
    else if not (is_alpha c)
    then false
    else attributes_of_tag (drop_while is_space (drop_while is_tag_char (c ∷ s)))

abbrev pub starts_line_here : Bool → Bytes → Bool
starts_line_here starts_line before = starts_line && is_nil before

unfoldable pub ruler_length : ℕ → Bytes → Bytes → Bool → ℕ
unfolding rtrim
ruler_length c before after starts_line =
    if not (starts_line_here starts_line before)
    then 0
    else if not (all_of (λ d. d == c) (rtrim after))
    then 0
    else 1 + length (rtrim after)

unfoldable pub is_bullet : Bytes → Bytes → Bool → Bool
is_bullet before after starts_line =
    starts_line_here starts_line before && (is_nil after || starts_with after (codes " "))

-- A test of the first and of the last byte, where there is one.
abbrev pub front_is : (ℕ → Bool) → Bytes → Bool
front_is p [] = false
front_is p (c ∷ s) = p c

abbrev pub back_is : (ℕ → Bool) → Bytes → Bool
back_is p [] = false
back_is p (c ∷ []) = p c
back_is p (c ∷ d ∷ s) = back_is p (d ∷ s)

unfoldable pub space_surrounds : Bytes → Bytes → Bool
space_surrounds before after =
    (is_nil after || front_is is_space after) && (is_nil before || back_is is_space before)

unfoldable pub word_surrounds : Bytes → Bytes → Bool
word_surrounds before after = front_is is_alnum after && back_is is_alnum before

-- The content of an entity: up to the first semicolon.
unfoldable pub until_semicolon : Bytes → Option Bytes
until_semicolon [] = none
until_semicolon (c ∷ s) =
    let rest = until_semicolon s in
    if c == b';' then some [] else elim rest [ none ↦ none | some r ↦ some (c ∷ r) ]

unfoldable pub is_entity_content : Bytes → Bool
is_entity_content [] = true
is_entity_content (c ∷ s) =
    if c == b'#'
    then (if front_is (λ d. d == b'x' || d == b'X') s
        then elim s [ [] ↦ true | (x ∷ t) ↦ all_of is_xdigit t ]
        else all_of is_digit s)
    else all_of is_alpha (c ∷ s)

unfoldable pub is_entity : Bytes → Bool
unfolding until_semicolon is_entity_content
is_entity after = elim (until_semicolon after) [
  | none ↦ false
  | some content ↦ is_entity_content content
]

unfoldable pub is_heading_rest : Bytes → Bool
unfolding drop_while
is_heading_rest after =
    let rest = drop_while (λ d. d == b'#') after in is_nil rest || starts_with rest (codes " ")

unfoldable pub needs_leading_escape_plaintext : ℕ → Bytes → Bytes → Bool → Bool
unfolding ruler_length is_bullet space_surrounds word_surrounds is_entity is_heading_rest
    looks_like_tag
needs_leading_escape_plaintext c before after starts_line =
    if c == 92 || c == b'`'
    then true
    else if c == b'~'
    then starts_line_here starts_line before && starts_with after (codes "~~")
    else if c == b'#'
    then starts_line_here starts_line before && is_heading_rest after
    else if c == b']'
    then starts_with after (codes ":") || starts_with after (codes "(")
    else if c == b'='
    then not (leb (ruler_length c before after starts_line) 0)
    else if c == b'_'
    then leb 3 (ruler_length c before after starts_line)
      || not (space_surrounds before after || word_surrounds before after)
    else if c == b'-'
    then not (leb (ruler_length c before after starts_line) 0) || is_bullet before after starts_line
    else if c == b'+'
    then is_bullet before after starts_line
    else if c == b'*'
    then is_bullet before after starts_line
      || leb 3 (ruler_length c before after starts_line)
      || not (space_surrounds before after)
    else if c == b'<'
    then looks_like_tag after
    else if c == b'>'
    then starts_line_here starts_line before
    else if c == b'&'
    then is_entity after
    else if c == b'.' || c == b')'
    then starts_line
      && not (is_nil before)
      && all_of is_digit before
      && starts_with after (codes " ")
    else false

-- The loop of `escapeMarkdownLine`, at the byte behind `before`.
unfoldable pub escape_from : Bytes → Bytes → Bytes
unfolding needs_leading_escape_plaintext
escape_from before [] = []
escape_from before (c ∷ after) =
    let rest = escape_from (before ++ (c ∷ [])) after in
    if needs_leading_escape_plaintext c before after true then 92 ∷ c ∷ rest else c ∷ rest

unfoldable pub escape_markdown_line : Bytes → Bytes
unfolding escape_from
escape_markdown_line line = escape_from [] line
