-- ===== src/Snippet/Defs.antt =====
-- The operations of SnippetString. A method returns the new object. A tabstop number is a natural
-- number: every caller passes 0 or none, and the counter counts up from 1.
use slang_server_extended.Base.{
  ℕ, ◌+◌, max, Bytes, List, [], ◌∷◌, ◌++◌, Bool, true, false, ◌||◌, ◌==◌, if◌then◌else◌, Option,
  none, some, is_nil, to_string, codes,
}

pub record SnippetString : Type 0 where
  pub value : Bytes
  pub tabstop : ℕ

-- `SnippetString()`
unfoldable pub empty : SnippetString
empty = record { value = []; tabstop = 1 }

-- `SnippetString(value)`
unfoldable pub make : Bytes → SnippetString
make v = record { value = v; tabstop = 1 }

abbrev pub is_special : ℕ → Bool
is_special c = c == b'$' || c == b'}' || c == b'\\'

unfoldable pub escape : Bytes → Bytes
escape [] = []
escape (c ∷ s) = if is_special c then b'\\' ∷ c ∷ escape s else c ∷ escape s

-- The number to use, and the object with its counter moved past it.
unfoldable pub next_tabstop : SnippetString → Option ℕ → ℕ × SnippetString
next_tabstop s (some n) = (n, record s { tabstop = max s.tabstop (n + 1) })
next_tabstop s none = (s.tabstop, record s { tabstop = s.tabstop + 1 })

abbrev append : SnippetString → Bytes → SnippetString
append s t = record s { value = s.value ++ t }

unfoldable pub append_text : SnippetString → Bytes → SnippetString
unfolding escape
append_text s text = append s (escape text)

unfoldable pub append_tabstop : SnippetString → Option ℕ → SnippetString
unfolding next_tabstop to_string
append_tabstop s number =
    let (n, t) = next_tabstop (append s (b'$' ∷ [])) number in append t (to_string n)

unfoldable pub append_placeholder : SnippetString → Bytes → Option ℕ → SnippetString
unfolding next_tabstop escape to_string
append_placeholder s v number =
    let (n, t) = next_tabstop (append s (codes "${")) number in
    append t (to_string n ++ b':' ∷ escape v ++ b'}' ∷ [])

-- The loop over `find_first_of(",|\\", pos)`: a backslash is put before each hit, and the scan goes
-- on behind it.
unfoldable pub escape_choice : Bytes → Bytes
escape_choice [] = []
escape_choice (c ∷ s) =
    if c == b',' || c == b'|' || c == b'\\'
    then b'\\' ∷ c ∷ escape_choice s
    else c ∷ escape_choice s

-- The loop over the values, `first` first.
unfoldable pub write_choices : Bool → List Bytes → Bytes
unfolding escape_choice
write_choices first [] = []
write_choices first (v ∷ vs) =
    let rest = escape_choice v ++ write_choices false vs in if first then rest else b',' ∷ rest

unfoldable pub append_choice : SnippetString → List Bytes → Option ℕ → SnippetString
unfolding next_tabstop write_choices to_string
append_choice s [] number = s
append_choice s (v ∷ vs) number =
    let (n, t) = next_tabstop (append s (codes "${")) number in
    append t (to_string n ++ b'|' ∷ write_choices true (v ∷ vs) ++ codes "|}")

unfoldable pub append_variable : SnippetString → Bytes → Bytes → SnippetString
unfolding escape
append_variable s name default =
    append s
      (codes "${" ++ name ++ (if is_nil default then [] else b':' ∷ escape default) ++ b'}' ∷ [])

-- The overload whose default is built by a callback on a fresh snippet.
unfoldable pub append_variable_with :
    SnippetString → Bytes → (SnippetString → SnippetString) → SnippetString
unfolding empty
append_variable_with s name callback =
    let nested = callback empty in
    append s
      (codes "${" ++ name ++ (if is_nil nested.value then [] else b':' ∷ nested.value) ++ b'}' ∷ [])
