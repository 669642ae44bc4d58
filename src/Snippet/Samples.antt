-- ===== src/Snippet/Samples.antt =====
-- Runs of SnippetString on small inputs, and the theorems at them.
use slang_server_extended.Base.{List, [], ◌∷◌, ◌++◌, none, some, ◌≡◌, refl, codes, length, drop}
use slang_server_extended.Snippet.Defs.{
  SnippetString, empty, escape, next_tabstop, append_tabstop, append_placeholder, append_choice,
  append_variable, append_variable_with,
}
use slang_server_extended.Snippet.Reader.{
  read_placeholder, read_choice, read-append_placeholder, read-append_choice,
}
use slang_server_extended.Snippet.Numbering.{Piece, Built, next_tabstop-fresh}

abbrev head : SnippetString
head = record { value = codes "m ("; tabstop = 1 }

escapes : escape (codes "a$b}c\\") ≡ codes "a\\$b\\}c\\\\"
unfolding escape
escapes = refl

placeholders :
    (append_placeholder (append_placeholder head (codes "clk") none) (codes "a}") none).value
    ≡ codes "m (${1:clk}${2:a\\}}"
unfolding append_placeholder
placeholders = refl

choices :
    (append_choice empty (codes "a,b" ∷ codes "c|" ∷ []) none).value ≡ codes "${1|a\\,b,c\\||}"
unfolding append_choice empty
choices = refl

nested_variable :
    (append_variable_with head (codes "VAR") (λ s. append_tabstop s (some 0))).value
    ≡ codes "m (${VAR:$0}"
unfolding append_variable_with append_tabstop empty
nested_variable = refl

plain_variable : (append_variable head (codes "TM") []).value ≡ codes "m (${TM}"
unfolding append_variable
plain_variable = refl

read-append_placeholder_example :
    read_placeholder
      (drop (length head.value) (append_placeholder head (codes "a}$") none).value ++ codes ");")
    ≡ some ((next_tabstop head none).0, codes "a}$", codes ");")
read-append_placeholder_example = read-append_placeholder head (codes "a}$") (codes ");") none

read-append_choice_example :
    read_choice (
      drop (length head.value) (append_choice head (codes "a,b" ∷ codes "c|" ∷ []) none).value
      ++ codes ");")
    ≡ some ((next_tabstop head none).0, codes "a,b" ∷ codes "c|" ∷ [], codes ");")
read-append_choice_example =
    read-append_choice head (codes "a,b") (codes "c|" ∷ []) (codes ");") none

abbrev history : List Piece
history = Piece.tabstop none ∷ Piece.placeholder (codes "x") (some 7) ∷ Piece.text (codes "y") ∷ []

next_tabstop-fresh_example : Built head history
next_tabstop-fresh_example = next_tabstop-fresh head history
