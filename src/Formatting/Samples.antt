-- ===== src/Formatting/Samples.antt =====
-- Runs on small texts.
use slang_server_extended.Base.{
  ℕ, [], ◌∷◌, ◌++◌, true, false, none, ◌≡◌, ◌↔◌, refl, is_nil, all_of, codes, is_space,
}
use slang_server_extended.Formatting.Defs.{
  get_lines, squash_spaces, shift_indent, strip_blank_lines, to_camel_case,
}
use slang_server_extended.Formatting.Spaces.{AreSquashed}
use slang_server_extended.Formatting.Squash.{
  is_newline, content_lines, squash_spaces-throws, get_lines-squash_spaces,
}

camel : to_camel_case (codes "JSONParser") ≡ codes "jsonParser"
unfolding to_camel_case
camel = refl

-- A blank line between two others is dropped.
shifted :
    shift_indent (codes "a" ++ (10 ∷ 10 ∷ codes "  b") ++ (10 ∷ codes "   c"))
    ≡ codes "a" ++ (10 ∷ codes "b") ++ (10 ∷ codes " c")
unfolding shift_indent
shifted = refl

stripped_of_blanks : strip_blank_lines is_space (codes " " ++ (10 ∷ 10 ∷ codes "  a")) ≡ codes "  a"
unfolding strip_blank_lines
stripped_of_blanks = refl

squash_spaces-throws_example :
    (squash_spaces (10 ∷ []) ≡ none)
    ↔ ((is_nil {A = ℕ} (10 ∷ []) ≡ false) × (all_of is_newline (10 ∷ []) ≡ true))
squash_spaces-throws_example = squash_spaces-throws (10 ∷ [])

get_lines-squash_spaces_example :
    AreSquashed (content_lines (codes "  a   b" ++ (10 ∷ []))) (get_lines (codes "  a b"))
unfolding squash_spaces
get_lines-squash_spaces_example =
    get_lines-squash_spaces (codes "  a   b" ++ (10 ∷ [])) (codes "  a b") refl refl
