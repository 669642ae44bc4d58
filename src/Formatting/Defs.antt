-- ===== src/Formatting/Defs.antt =====
-- `stripBlankLines`, `shiftIndent`, `squashSpaces` and `toCamelCase`. The whitespace test of slang is a
-- parameter. `none` is the exception that `resize` throws for a size below zero.
use slang_server_extended.Base.{
  ℕ, zero, suc, List, [], ◌∷◌, ◌++◌, map, Bool, true, false, not, ◌&&◌, ◌||◌, ◌==◌, ltb, min,
  if◌then◌else◌, Option, none, some, length, is_nil, keep, Bytes, is_upper, is_space, to_lower,
}

abbrev pub into_line : ℕ → List Bytes → List Bytes
into_line c [] = (c ∷ []) ∷ []
into_line c (s ∷ ss) = (c ∷ s) ∷ ss

-- What `std::getline` reads, line by line.
unfoldable pub get_lines : Bytes → List Bytes
get_lines [] = []
get_lines (c ∷ s) = let rest = get_lines s in if c == 10 then [] ∷ rest else into_line c rest

-- Each line with a newline behind it.
unfoldable pub write_lines : List Bytes → Bytes
write_lines [] = []
write_lines (l ∷ ls) = l ++ (10 ∷ write_lines ls)

unfoldable pub without_last : Bytes → Bytes
without_last [] = []
without_last (c ∷ []) = []
without_last (c ∷ d ∷ s) = c ∷ without_last (d ∷ s)

abbrev pub has_content : Bytes → Bool
has_content l = not (is_nil l)

unfoldable pub is_single_line : Bytes → Bool
is_single_line [] = true
is_single_line (c ∷ s) = let rest = is_single_line s in if c == 10 then false else rest

-- The content of a line, runs of spaces made one; `in_space_sequence` as in the source.
unfoldable pub squash_content : Bool → Bytes → Bytes
squash_content in_space_sequence [] = []
squash_content in_space_sequence (c ∷ s) = elim (c == 32) [
  | true ↦ (let rest = squash_content true s in if in_space_sequence then rest else c ∷ rest)
  | false ↦ c ∷ squash_content false s
]

-- The leading spaces and tabs are copied.
unfoldable pub squash_line : Bytes → Bytes
unfolding squash_content
squash_line [] = []
squash_line (c ∷ s) = elim (c == 32 || c == 9) [
  | true ↦ c ∷ squash_line s
  | false ↦ squash_content false (c ∷ s)
]

unfoldable pub squash_spaces : Bytes → Option Bytes
unfolding get_lines write_lines without_last squash_line
squash_spaces s =
    let result = write_lines (map squash_line (keep has_content (get_lines s))) in
    if is_nil s then some s else if is_nil result then none else some (without_last result)

-- How many bytes of the line's indentation are there, and without at most n of them.
unfoldable pub indent_of : ℕ → Bytes → ℕ
indent_of i [] = 0
indent_of i (c ∷ s) = if c == i then suc (indent_of i s) else 0

unfoldable pub unindent : ℕ → ℕ → Bytes → Bytes
unindent i zero s = s
unindent i (suc n) [] = []
unindent i (suc n) (c ∷ s) = if c == i then unindent i n s else c ∷ s

-- The least indentation of the lines that have content behind it, `none` for SIZE_MAX.
unfoldable pub min_indent : ℕ → List Bytes → Option ℕ
unfolding indent_of
min_indent i [] = none
min_indent i (l ∷ ls) =
    let rest = min_indent i ls in
    if ltb (indent_of i l) (length l)
    then some (elim rest [ none ↦ indent_of i l | some n ↦ min (indent_of i l) n ])
    else rest

abbrev pub rest_of : List Bytes → List Bytes
rest_of [] = []
rest_of (l ∷ ls) = ls

abbrev pub has_tab : Bytes → Bool
has_tab [] = false
has_tab (c ∷ s) = c == 9 || has_tab s

-- The second pass.
unfoldable pub shift_lines : ℕ → ℕ → Bytes → Bytes
unfolding get_lines write_lines unindent without_last
shift_lines i n s = without_last (write_lines (map (unindent i n) (keep has_content (get_lines s))))

unfoldable pub ltrim : Bytes → Bytes
ltrim [] = []
ltrim (c ∷ s) = if is_space c then ltrim s else c ∷ s

module _ (is_whitespace : ℕ → Bool) where
  -- What follows the last newline of the leading whitespace, if it has one.
  unfoldable pub behind_blank_lines : Bytes → Option Bytes
  behind_blank_lines [] = none
  behind_blank_lines (c ∷ s) =
      let rest = behind_blank_lines s in
      if is_whitespace c
      then elim rest [ some t ↦ some t | none ↦ if c == 10 then some s else none ]
      else none

  unfoldable pub strip_blank_lines : Bytes → Bytes
  unfolding behind_blank_lines
  strip_blank_lines s = elim (behind_blank_lines s) [ none ↦ s | some t ↦ t ]

unfoldable pub shift_indent : Bytes → Bytes
unfolding shift_lines min_indent get_lines is_single_line ltrim
shift_indent s =
    let i = if has_tab s then 9 else 32 in
    if is_nil s
    then s
    else if is_single_line s
    then ltrim s
    else elim (min_indent i (rest_of (get_lines s))) [
      | none ↦ s
      | some zero ↦ s
      | some (suc n) ↦ shift_lines i (suc n) s
    ]

-- The loop over the characters behind the first.
unfoldable pub camel_rest : Bytes → Bytes
camel_rest [] = []
camel_rest (c ∷ []) = (if is_upper c then to_lower c else c) ∷ []
camel_rest (c ∷ d ∷ s) =
    let rest = camel_rest (d ∷ s) in
    if is_upper c && is_upper d then to_lower c ∷ rest else c ∷ d ∷ s

unfoldable pub to_camel_case : Bytes → Bytes
unfolding camel_rest
to_camel_case [] = []
to_camel_case (c ∷ s) = to_lower c ∷ camel_rest s
