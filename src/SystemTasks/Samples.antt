-- ===== src/SystemTasks/Samples.antt =====
-- Runs on signatures of the standard's system tasks.
use slang_server_extended.Base.{
  length, zero, ◌∷◌, ◌++◌, true, false, some, ◌≡◌, ◌↔◌, refl, arith, to_string, is_nil, all_of,
  Bytes, codes, bytes_eq, is_space, is_alnum,
}
use slang_server_extended.SystemTasks.Text.{front_is, back_is, is_name_char}
use slang_server_extended.SystemTasks.Signature.{
  find_balanced, split_at_commas, is_opening_marker, is_closing_marker, strip_front, strip_back,
  strip_optional_arg_markers, strip_default_value, get_argument_placeholder,
}
use slang_server_extended.SystemTasks.Completion.{get_system_subroutine_snippet}
use slang_server_extended.SystemTasks.Trimming.{strip_loops_end}
use slang_server_extended.SystemTasks.Brackets.{closes, find_balanced_iff}
use slang_server_extended.SystemTasks.Arguments.{
  joined, have_no_outer_comma, joined-split_at_commas, get_argument_placeholder-name,
}

abbrev snippet : Bytes → Bytes → Bytes
snippet label documented = get_system_subroutine_snippet is_space is_alnum label (some documented)

opens_file :
    snippet (codes "$fopen") (codes "int $fopen(string filename, string mode = r)")
    ≡ codes "fopen(${1:filename})"
unfolding get_system_subroutine_snippet to_string
opens_file = refl

finds_maximum :
    snippet (codes "max") (codes "array.max with (item.x)") ≡ codes "max with (${1:item.x})"
unfolding get_system_subroutine_snippet to_string
finds_maximum = refl

joined-split_at_commas_example :
    (joined (split_at_commas zero (codes "a, f(b, c)")) ≡ codes "a, f(b, c)")
    × (have_no_outer_comma zero (split_at_commas zero (codes "a, f(b, c)")) ≡ true)
    × (length (split_at_commas zero (codes "a, f(b, c)")) ≡ 2)
unfolding split_at_commas
joined-split_at_commas_example = joined-split_at_commas (codes "a, f(b, c)")

find_balanced_iff_example :
    (find_balanced b'(' b')' zero (codes "a(b)) c") ≡ some (codes "a(b)", codes " c")) ↔ (
      (codes "a(b)) c" ≡ codes "a(b)" ++ (b')' ∷ codes " c"))
      × (closes b'(' b')' zero (codes "a(b)") ≡ true))
find_balanced_iff_example =
    find_balanced_iff b'(' b')' (codes "a(b)) c") (codes "a(b)") (codes " c") (ground arith)

get_argument_placeholder-name_example :
    (bytes_eq
        (strip_default_value is_space is_alnum
          (strip_optional_arg_markers is_space is_alnum (codes "[ string mode = r ]")))
        (codes "...")
      ≡ is_nil (codes "mode"))
    × (all_of (is_name_char is_space is_alnum) (codes "mode") ≡ true)
unfolding get_argument_placeholder
get_argument_placeholder-name_example =
    get_argument_placeholder-name is_space is_alnum (codes "[ string mode = r ]") (codes "mode")
      refl

strip_loops_end_example :
    (front_is is_opening_marker (strip_front is_space is_alnum 6 (codes "[ , a]")) ≡ false)
    × (back_is is_closing_marker (strip_back is_space is_alnum 6 (codes "[ , a]")) ≡ false)
strip_loops_end_example = strip_loops_end is_space is_alnum (codes "[ , a]")
