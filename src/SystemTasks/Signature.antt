-- ===== src/SystemTasks/Signature.antt =====
-- The arguments of a signature: brackets, optional segments, the split at commas, and placeholders.
use slang_server_extended.Base.{
  ℕ, zero, suc, ◌+◌, ◌-◌, List, [], ◌∷◌, map, Bool, true, false, not, ◌&&◌, ◌||◌, ◌==◌,
  if◌then◌else◌, Option, none, some, length, drop, is_nil, all_of, Bytes, codes, bytes_eq,
  starts_with,
}
use slang_server_extended.SystemTasks.Text.{
  front_is, back_is, without_back, drop_back, trim, is_name_char, first_signature,
  get_system_subroutine_insert_text, find_system_subroutine_name,
}

abbrev pub in_front : ℕ → Option (Bytes × Bytes) → Option (Bytes × Bytes)
in_front c none = none
in_front c (some (s, t)) = some (c ∷ s, t)

-- `findBalancedContents` and `findBalancedClose`, behind the opening bracket: the contents and what
-- follows the closing one. `inner` is the depth less one.
unfoldable pub find_balanced : ℕ → ℕ → ℕ → Bytes → Option (Bytes × Bytes)
find_balanced o c inner [] = none
find_balanced o c inner (x ∷ s) = elim (x == o) [
  | true ↦ in_front x (find_balanced o c (suc inner) s)
  | false ↦ elim (x == c) [
    | false ↦ in_front x (find_balanced o c inner s)
    | true ↦ elim inner [ zero ↦ some ([], s) | (suc k) ↦ in_front x (find_balanced o c k s) ]
  ]
]

-- How many bytes behind `c` an optional segment takes up, if it is one.
unfoldable pub segment_length : ℕ → Bytes → Option ℕ
unfolding find_balanced
segment_length c s =
    if c == b'['
    then elim (find_balanced b'[' b']' zero s) [ none ↦ none | some r ↦ some (length r.0 + 1) ]
    else none

unfoldable pub without_segments : ℕ → Bytes → Bytes
unfolding segment_length
without_segments skip [] = []
without_segments (suc skip) (c ∷ s) = without_segments skip s
without_segments zero (c ∷ s) = elim (segment_length c s) [
  | none ↦ c ∷ without_segments zero s
  | some n ↦ without_segments n s
]

-- The pieces between the commas outside parentheses, untrimmed; there is always one.
abbrev pub into_first : ℕ → List Bytes → List Bytes
into_first c [] = (c ∷ []) ∷ []
into_first c (s ∷ ss) = (c ∷ s) ∷ ss

unfoldable pub split_at_commas : ℕ → Bytes → List Bytes
split_at_commas depth [] = [] ∷ []
split_at_commas depth (c ∷ s) = elim (c == b'(') [
  | true ↦ into_first c (split_at_commas (suc depth) s)
  | false ↦ elim (c == b')') [
    | true ↦ into_first c (split_at_commas (depth - 1) s)
    | false ↦ elim (c == b',' && depth == 0) [
      | true ↦ [] ∷ split_at_commas depth s
      | false ↦ into_first c (split_at_commas depth s)
    ]
  ]
]

abbrev pub option_cons : ℕ → Option Bytes → Option Bytes
option_cons c none = none
option_cons c (some s) = some (c ∷ s)

-- What stands before the first equals sign outside brackets, if there is one.
unfoldable pub before_default : ℕ → ℕ → Bytes → Option Bytes
before_default parens brackets [] = none
before_default parens brackets (c ∷ s) = elim (c == b'=' && parens == 0 && brackets == 0) [
  | true ↦ some []
  | false ↦ option_cons c (
      before_default (if c == b'(' then suc parens else if c == b')' then parens - 1 else parens)
        (if c == b'[' then suc brackets else if c == b']' then brackets - 1 else brackets) s)
]

-- The longest end of the text that has only such bytes.
unfoldable pub last_run : (ℕ → Bool) → Bytes → Bytes
last_run p [] = []
last_run p (c ∷ s) = let rest = last_run p s in if all_of p (c ∷ s) then c ∷ s else rest

pub data Kind : Type 0 where
  call_args with_clause : Kind

abbrev pub is_opening_marker : ℕ → Bool
is_opening_marker c = c == b'[' || c == b','

abbrev pub is_closing_marker : ℕ → Bool
is_closing_marker c = c == b'[' || c == b']'

module _ (is_whitespace is_alpha_numeric : ℕ → Bool) where
  unfoldable pub strip_optional_segments : Bytes → Bytes
  unfolding without_segments trim
  strip_optional_segments s = trim is_whitespace is_alpha_numeric (without_segments zero s)

  unfoldable pub split_signature_args : Bytes → List Bytes
  unfolding split_at_commas trim
  split_signature_args s = map (trim is_whitespace is_alpha_numeric) (split_at_commas zero s)

  -- The two loops, on fuel: each round takes a byte off.
  unfoldable pub strip_front : ℕ → Bytes → Bytes
  unfolding trim
  strip_front zero s = s
  strip_front (suc n) s = elim (front_is is_opening_marker s) [
    | true ↦ strip_front n (trim is_whitespace is_alpha_numeric (drop 1 s))
    | false ↦ s
  ]

  unfoldable pub strip_back : ℕ → Bytes → Bytes
  unfolding trim
  strip_back zero s = s
  strip_back (suc n) s = elim (back_is is_closing_marker s) [
    | true ↦ strip_back n (trim is_whitespace is_alpha_numeric (without_back s))
    | false ↦ s
  ]

  unfoldable pub strip_optional_arg_markers : Bytes → Bytes
  unfolding strip_front strip_back trim
  strip_optional_arg_markers arg =
      let a = trim is_whitespace is_alpha_numeric arg in
      let b = strip_front (length a) a in strip_back (length b) b

  unfoldable pub strip_default_value : Bytes → Bytes
  unfolding before_default trim
  strip_default_value arg = elim (before_default zero zero arg) [
    | none ↦ trim is_whitespace is_alpha_numeric arg
    | some s ↦ trim is_whitespace is_alpha_numeric s
  ]

  unfoldable pub has_default_value : Bytes → Bool
  unfolding strip_default_value trim
  has_default_value arg =
      not (length (strip_default_value arg) == length (trim is_whitespace is_alpha_numeric arg))

  unfoldable pub get_argument_placeholder : Bytes → Option Bytes
  unfolding strip_default_value strip_optional_arg_markers last_run drop_back is_name_char
  get_argument_placeholder arg =
      let a = strip_default_value (strip_optional_arg_markers arg) in
      let named = drop_back (λ c. not (is_name_char is_whitespace is_alpha_numeric c)) a in
      if is_nil a
      then none
      else if bytes_eq a (codes "...")
      then some []
      else if is_nil named
      then none
      else some (last_run (is_name_char is_whitespace is_alpha_numeric) named)

  -- `getSignatureArgs`: the kind and the text of the arguments.
  unfoldable pub get_signature_args : Bytes → Bytes → Option (Kind × Bytes)
  unfolding first_signature get_system_subroutine_insert_text find_system_subroutine_name
      find_balanced trim
  get_signature_args label documented =
      let signature = first_signature is_whitespace is_alpha_numeric documented in
      let names = label ∷ get_system_subroutine_insert_text label ∷ [] in
      elim (find_system_subroutine_name is_whitespace is_alpha_numeric signature names) [
        | none ↦ none
        | some behind ↦
            (let rest = trim is_whitespace is_alpha_numeric behind in
              if starts_with rest (codes "with ") then some (with_clause, rest) else elim rest [
                | [] ↦ none
                | (c ∷ s) ↦
                    if c == b'['
                    then some (call_args, [])
                    else if c == b'('
                    then elim (find_balanced b'(' b')' zero s) [
                      | none ↦ none
                      | some r ↦ some (call_args, r.0)
                    ]
                    else none
              ])
      ]
