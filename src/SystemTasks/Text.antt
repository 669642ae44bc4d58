-- ===== src/SystemTasks/Text.antt =====
-- Trimming and searching. The character classes of slang, which is not part of the repository, are
-- parameters. A position in a text is the rest of the text from there on.
use slang_server_extended.Base.{
  ℕ, zero, suc, ◌-◌, List, [], ◌∷◌, Bool, true, false, not, ◌&&◌, ◌||◌, ◌==◌, if◌then◌else◌, Option,
  none, some, length, drop, is_nil, Bytes, starts_with,
}

abbrev pub front_is : (ℕ → Bool) → Bytes → Bool
front_is p [] = false
front_is p (c ∷ s) = p c

abbrev pub back_is : (ℕ → Bool) → Bytes → Bool
back_is p [] = false
back_is p (c ∷ []) = p c
back_is p (c ∷ d ∷ s) = back_is p (d ∷ s)

-- `remove_suffix(1)`
abbrev pub without_back : Bytes → Bytes
without_back [] = []
without_back (c ∷ []) = []
without_back (c ∷ d ∷ s) = c ∷ without_back (d ∷ s)

unfoldable pub drop_front : (ℕ → Bool) → Bytes → Bytes
drop_front p [] = []
drop_front p (c ∷ s) = if p c then drop_front p s else c ∷ s

unfoldable pub drop_back : (ℕ → Bool) → Bytes → Bytes
drop_back p [] = []
drop_back p (c ∷ s) = let r = drop_back p s in if is_nil r && p c then [] else c ∷ r

-- Up to the first newline.
unfoldable pub first_line : Bytes → Bytes
first_line [] = []
first_line (c ∷ s) = let rest = first_line s in if c == 10 then [] else c ∷ rest

unfoldable pub contains_text : Bytes → Bytes → Bool
contains_text t [] = is_nil t
contains_text t (c ∷ s) = let rest = contains_text t s in starts_with (c ∷ s) t || rest

unfoldable pub get_system_subroutine_insert_text : Bytes → Bytes
get_system_subroutine_insert_text [] = []
get_system_subroutine_insert_text (c ∷ s) = if c == b'$' then s else c ∷ s

module _ (is_whitespace is_alpha_numeric : ℕ → Bool) where
  unfoldable pub trim : Bytes → Bytes
  unfolding drop_front drop_back
  trim s = drop_back is_whitespace (drop_front is_whitespace s)

  unfoldable pub is_name_char : ℕ → Bool
  is_name_char c = is_alpha_numeric c || c == b'_' || c == b'$'

  unfoldable pub first_signature : Bytes → Bytes
  unfolding first_line trim
  first_signature s = trim (first_line s)

  abbrev pub is_boundary : Option ℕ → Bool
  is_boundary none = true
  is_boundary (some c) = not (is_name_char c)

  -- The search for one name: what follows it, where it stands between boundaries. `skip` bytes are
  -- read over: the rest of a match that did not.
  unfoldable pub find_name : Bytes → ℕ → Option ℕ → Bytes → Option Bytes
  unfolding is_name_char
  find_name name skip before [] = none
  find_name name (suc skip) before (c ∷ s) = find_name name skip (some c) s
  find_name name zero before (c ∷ s) =
      let rest = drop (length name) (c ∷ s) in
      elim (starts_with (c ∷ s) name) [
        | false ↦ find_name name zero (some c) s
        | true ↦ elim (is_boundary before && not (front_is is_name_char rest)) [
          | true ↦ some rest
          | false ↦ find_name name (length name - 1) (some c) s
        ]
      ]

  -- The names in their order; an empty one is passed over.
  unfoldable pub find_system_subroutine_name : Bytes → List Bytes → Option Bytes
  unfolding find_name
  find_system_subroutine_name signature [] = none
  find_system_subroutine_name signature (name ∷ names) = elim (is_nil name) [
    | true ↦ find_system_subroutine_name signature names
    | false ↦ elim (find_name name zero none signature) [
      | some rest ↦ some rest
      | none ↦ find_system_subroutine_name signature names
    ]
  ]
