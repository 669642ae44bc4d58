-- ===== src/SystemTasks/Completion.antt =====
-- `buildSnippetFromArgs` and `getSystemSubroutineSnippet`.
use slang_server_extended.Base.{
  ℕ, zero, List, [], ◌∷◌, Bool, true, false, not, ◌&&◌, ◌||◌, ◌==◌, if◌then◌else◌, Option, none,
  some, is_nil, Bytes, codes, bytes_eq,
}
use slang_server_extended.Snippet.Defs.{
  SnippetString, empty, append_text, append_tabstop, append_placeholder,
}
use slang_server_extended.SystemTasks.Text.{trim, contains_text, get_system_subroutine_insert_text}
use slang_server_extended.SystemTasks.Signature.{
  Kind, call_args, with_clause, find_balanced, strip_optional_segments, split_signature_args,
  strip_optional_arg_markers, has_default_value, get_argument_placeholder, get_signature_args,
}

-- What the loop over the arguments carries.
pub record Building : Type 0 where
  pub snippet : SnippetString
  pub needs_comma : Bool
  pub has_final_tabstop : Bool
  pub skipped_default_placeholder : Bool

abbrev pub is_format : Bytes → Bool
is_format p = bytes_eq p (codes "format")

-- `item.expr`, where there is nothing better
abbrev pub some_expression : Bytes
some_expression = codes "item.expr"

-- What stands behind the first opening parenthesis, if there is one.
unfoldable pub behind_open : Bytes → Option Bytes
behind_open [] = none
behind_open (c ∷ s) = let rest = behind_open s in if c == b'(' then some s else rest

-- The call of `appendPlaceholder` or `appendTabstop` for one argument that is written.
unfoldable pub write_placeholder : Bytes → SnippetString → SnippetString
unfolding append_text append_tabstop append_placeholder
write_placeholder p s =
    if is_nil p
    then append_tabstop s (some 0)
    else if is_format p
    then append_text (append_placeholder (append_text s (codes "\"")) p none) (codes "\"")
    else append_placeholder s p none

unfoldable pub add_comma : Bool → SnippetString → SnippetString
unfolding append_text
add_comma b s = if b then append_text s (codes ", ") else s

-- One argument that is not passed over.
unfoldable pub write_argument : Bytes → Building → Building
unfolding write_placeholder add_comma
write_argument p b = record b {
  snippet = write_placeholder p (add_comma b.needs_comma b.snippet);
  needs_comma = true;
  has_final_tabstop = is_nil p || b.has_final_tabstop;
}

-- One round of the loop, with the argument's placeholder and whether it has a default.
unfoldable pub add_argument : Option Bytes → Bool → Building → Building
unfolding write_argument
add_argument none defaulted b = b
add_argument (some p) defaulted b =
    if is_nil p && b.skipped_default_placeholder
    then b
    else if defaulted && not (is_format p && not b.skipped_default_placeholder)
    then record b { skipped_default_placeholder = true }
    else write_argument p b

-- What follows the last argument.
unfoldable pub close_arguments : Bytes → Building → SnippetString
unfolding append_text append_tabstop contains_text
close_arguments args b =
    append_text
      (if not b.needs_comma && bytes_eq args (codes "...")
        then append_tabstop b.snippet (some 0)
        else if b.needs_comma && contains_text (codes "...") args && not b.has_final_tabstop
        then append_tabstop (append_text b.snippet (codes ", ")) (some 0)
        else b.snippet)
      (codes ")")

module _ (is_whitespace is_alpha_numeric : ℕ → Bool) where
  unfoldable pub get_with_clause_placeholder : Bytes → Bytes
  unfolding behind_open find_balanced trim
  get_with_clause_placeholder s = elim (behind_open s) [
    | none ↦ some_expression
    | some inside ↦ elim (find_balanced b'(' b')' zero inside) [
      | none ↦ some_expression
      | some r ↦
          (let placeholder = trim is_whitespace is_alpha_numeric r.0 in
            if is_nil placeholder then some_expression else placeholder)
    ]
  ]

  unfoldable pub add_arguments : List Bytes → Building → Building
  unfolding add_argument get_argument_placeholder has_default_value strip_optional_arg_markers
  add_arguments [] b = b
  add_arguments (arg ∷ args) b = add_arguments args (
      add_argument (get_argument_placeholder is_whitespace is_alpha_numeric arg)
        (has_default_value is_whitespace is_alpha_numeric
          (strip_optional_arg_markers is_whitespace is_alpha_numeric arg))
        b)

  unfoldable pub build_call : Bytes → Bytes → SnippetString
  unfolding append_text empty add_arguments close_arguments strip_optional_segments
      split_signature_args
  build_call insert_text signature_args =
      let args = strip_optional_segments is_whitespace is_alpha_numeric signature_args in
      close_arguments args (
        add_arguments (split_signature_args is_whitespace is_alpha_numeric args) (record {
          snippet = append_text (append_text empty insert_text) (codes "(");
          needs_comma = false;
          has_final_tabstop = false;
          skipped_default_placeholder = false;
        }))

  unfoldable pub build_with : Bytes → Bytes → SnippetString
  unfolding append_text append_placeholder empty get_with_clause_placeholder
  build_with insert_text clause =
      append_text
        (append_placeholder (append_text (append_text empty insert_text) (codes " with ("))
          (get_with_clause_placeholder clause) none)
        (codes ")")

  unfoldable pub build_snippet_from_args : Bytes → Kind → Bytes → Bytes
  unfolding build_call build_with
  build_snippet_from_args insert_text call_args args = (build_call insert_text args).value
  build_snippet_from_args insert_text with_clause args = (build_with insert_text args).value

  -- The documented signature is missing where the task is not documented.
  unfoldable pub get_system_subroutine_snippet : Bytes → Option Bytes → Bytes
  unfolding build_snippet_from_args get_signature_args get_system_subroutine_insert_text append_text
      empty
  get_system_subroutine_snippet label none = get_system_subroutine_insert_text label
  get_system_subroutine_snippet label (some documented) =
      elim (get_signature_args is_whitespace is_alpha_numeric label documented) [
        | none ↦ (append_text empty (get_system_subroutine_insert_text label)).value
        | some a ↦ build_snippet_from_args (get_system_subroutine_insert_text label) a.0 a.1
      ]
