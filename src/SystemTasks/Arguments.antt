-- ===== src/SystemTasks/Arguments.antt =====
-- The split of a text of arguments, and what is left of one argument.
use slang_server_extended.Base.{
  ℕ, zero, suc, ◌-◌, List, [], ◌∷◌, ◌++◌, Bool, true, false, not, ◌&&◌, ◌||◌, ◌==◌, if◌then◌else◌,
  some, ◌≡◌, refl, arith, is_nil, all_of, Bytes, codes, bytes_eq, length, ◌+◌, Bool-cases, inl, inr,
}
use slang_server_extended.SystemTasks.Text.{back_is, drop_back, is_name_char}
use slang_server_extended.SystemTasks.Signature.{
  into_first, split_at_commas, strip_optional_arg_markers, last_run, get_argument_placeholder,
  strip_default_value,
}

-- The pieces with commas between them.
abbrev pub joined : List Bytes → Bytes
joined [] = []
joined (s ∷ []) = s
joined (s ∷ t ∷ ss) = s ++ (b',' ∷ joined (t ∷ ss))

-- Whether a comma stands outside the parentheses that the text opens, `depth` of them already open.
abbrev pub has_outer_comma : ℕ → Bytes → Bool
has_outer_comma depth [] = false
has_outer_comma depth (c ∷ s) =
    if c == b'('
    then has_outer_comma (suc depth) s
    else if c == b')'
    then has_outer_comma (depth - 1) s
    else (c == b',' && depth == 0) || has_outer_comma depth s

-- The first piece is read at the depth at which the split began.
abbrev pub have_no_outer_comma : ℕ → List Bytes → Bool
have_no_outer_comma depth [] = true
have_no_outer_comma depth (s ∷ ss) =
    not (has_outer_comma depth s) && all_of (λ t. not (has_outer_comma zero t)) ss

joined-into_first : (c : ℕ) (ss : List Bytes) → joined (into_first c ss) ≡ c ∷ joined ss
joined-into_first c [] = refl
joined-into_first c (s ∷ []) = refl
joined-into_first c (s ∷ t ∷ ss) = refl

into_first-nonempty : (c : ℕ) (ss : List Bytes) → is_nil (into_first c ss) ≡ false
into_first-nonempty c [] = refl
into_first-nonempty c (s ∷ ss) = refl

split-nonempty : (d : ℕ) (s : Bytes) → is_nil (split_at_commas d s) ≡ false
unfolding split_at_commas
split-nonempty d [] = refl
split-nonempty d (c ∷ s) = ground (
  arith,
  into_first-nonempty c (split_at_commas (suc d) s),
  into_first-nonempty c (split_at_commas (d - 1) s),
  into_first-nonempty c (split_at_commas d s),
)

joined-comma : (ss : List Bytes) → is_nil ss ≡ false → joined ([] ∷ ss) ≡ b',' ∷ joined ss
joined-comma [] h = ground (arith, h)
joined-comma (s ∷ ss) h = refl

joined-split : (d : ℕ) (s : Bytes) → joined (split_at_commas d s) ≡ s
unfolding split_at_commas
joined-split d [] = refl
joined-split d (c ∷ s) = ground (
  arith,
  joined-into_first c (split_at_commas (suc d) s),
  joined-split (suc d) s,
  joined-into_first c (split_at_commas (d - 1) s),
  joined-split (d - 1) s,
  joined-into_first c (split_at_commas d s),
  joined-split d s,
  joined-comma (split_at_commas d s) (split-nonempty d s),
)

-- A byte that leads from depth d to depth e and is no outer comma goes into the first piece.
module _ (c d e : ℕ) (h : (s : Bytes) → has_outer_comma d (c ∷ s) ≡ has_outer_comma e s) where
  into_first-outer :
      (ss : List Bytes)
      → have_no_outer_comma e ss ≡ true
      → have_no_outer_comma d (into_first c ss) ≡ true
  into_first-outer [] k = ground (arith, h [])
  into_first-outer (s ∷ ss) k = ground (arith, h s, k)

comma-outer :
    (ss : List Bytes)
    → have_no_outer_comma zero ss ≡ true
    → have_no_outer_comma zero ([] ∷ ss) ≡ true
comma-outer [] h = refl
comma-outer (s ∷ ss) h = ground (arith, h)

outer-split : (d : ℕ) (s : Bytes) → have_no_outer_comma d (split_at_commas d s) ≡ true
unfolding split_at_commas
outer-split d [] = refl
outer-split d (c ∷ s) = elim (Bool-cases (c == b'(')) [
  | inl opening ↦ ground (
    arith,
    opening,
    into_first-outer c d (suc d) (λ t. ground (arith, opening)) (split_at_commas (suc d) s)
        (outer-split (suc d) s),
  )
  | inr other ↦ elim (Bool-cases (c == b')')) [
    | inl closing ↦ ground (
      arith,
      other,
      closing,
      into_first-outer c d (d - 1) (λ t. ground (arith, other, closing)) (split_at_commas (d - 1) s)
          (outer-split (d - 1) s),
    )
    | inr plain ↦ elim (Bool-cases (c == b',' && d == 0)) [
      | inl comma ↦
          ground (arith, other, plain, comma, comma-outer (split_at_commas d s), outer-split d s)
      | inr inner ↦ ground (
        arith,
        other,
        plain,
        inner,
        into_first-outer c d d (λ t. ground (arith, other, plain, inner)) (split_at_commas d s)
            (outer-split d s),
      )
    ]
  ]
]

-- How many commas stand outside the parentheses that the text opens.
abbrev pub outer_commas : ℕ → Bytes → ℕ
outer_commas depth [] = 0
outer_commas depth (c ∷ s) =
    if c == b'('
    then outer_commas (suc depth) s
    else if c == b')'
    then outer_commas (depth - 1) s
    else (if c == b',' && depth == 0 then 1 else 0) + outer_commas depth s

length-into_first :
    (c : ℕ) (ss : List Bytes) → is_nil ss ≡ false → length (into_first c ss) ≡ length ss
length-into_first c [] h = ground (arith, h)
length-into_first c (s ∷ ss) h = refl

length-split : (d : ℕ) (s : Bytes) → length (split_at_commas d s) ≡ suc (outer_commas d s)
unfolding split_at_commas
length-split d [] = refl
length-split d (c ∷ s) = ground (
  arith,
  length-into_first c (split_at_commas (suc d) s) (split-nonempty (suc d) s),
  length-split (suc d) s,
  length-into_first c (split_at_commas (d - 1) s) (split-nonempty (d - 1) s),
  length-split (d - 1) s,
  length-into_first c (split_at_commas d s) (split-nonempty d s),
  length-split d s,
)

-- The pieces of a text of arguments, before they are trimmed, give the text back with commas between
-- them; no piece has a comma outside the parentheses that it opens; and the text has as many commas
-- outside its parentheses as there are cuts: it is cut at those commas and at no other.
pub joined-split_at_commas :
    (s : Bytes)
    → (joined (split_at_commas zero s) ≡ s)
      × (have_no_outer_comma zero (split_at_commas zero s) ≡ true)
      × (length (split_at_commas zero s) ≡ suc (outer_commas zero s))
joined-split_at_commas s = (joined-split zero s, outer-split zero s, length-split zero s)

last_run-all : (p : ℕ → Bool) (s : Bytes) → all_of p (last_run p s) ≡ true
unfolding last_run
last_run-all p [] = refl
last_run-all p (c ∷ s) = ground (arith, last_run-all p s)

last_run-nonempty : (p : ℕ → Bool) (s : Bytes) → back_is p s ≡ true → is_nil (last_run p s) ≡ false
unfolding last_run
last_run-nonempty p [] h = ground (arith, h)
last_run-nonempty p (c ∷ []) h = ground (arith, h)
last_run-nonempty p (c ∷ d ∷ s) h = ground (arith, h, last_run-nonempty p (d ∷ s))

drop_back-step :
    (p : ℕ → Bool) (c : ℕ) (r : Bytes)
    → (is_nil r ≡ false → back_is p r ≡ true)
    → is_nil (if is_nil r && not (p c) then [] else c ∷ r) ≡ false
    → back_is p (if is_nil r && not (p c) then [] else c ∷ r) ≡ true
drop_back-step p c [] f h = ground (arith, h)
drop_back-step p c (d ∷ r) f h = f refl

drop_back-back :
    (p : ℕ → Bool) (s : Bytes)
    → is_nil (drop_back (λ c. not (p c)) s) ≡ false
    → back_is p (drop_back (λ c. not (p c)) s) ≡ true
unfolding drop_back
drop_back-back p [] h = ground (arith, h)
drop_back-back p (c ∷ s) h =
    drop_back-step p c (drop_back (λ d. not (p d)) s) (drop_back-back p s) h

module _ (is_whitespace is_alpha_numeric : ℕ → Bool) where
  abbrev name_char : ℕ → Bool
  name_char = is_name_char is_whitespace is_alpha_numeric

  -- The placeholder of an argument is empty, for the argument `...`, or a name: it has a byte, and
  -- all its bytes are letters, digits, underscores or dollar signs.
  pub get_argument_placeholder-name :
      (arg p : Bytes)
      → get_argument_placeholder is_whitespace is_alpha_numeric arg ≡ some p
      → (bytes_eq
            (strip_default_value is_whitespace is_alpha_numeric
              (strip_optional_arg_markers is_whitespace is_alpha_numeric arg))
            (codes "...")
          ≡ is_nil p)
        × (all_of (is_name_char is_whitespace is_alpha_numeric) p ≡ true)
  unfolding get_argument_placeholder
  get_argument_placeholder-name arg p h =
      let a =
        strip_default_value is_whitespace is_alpha_numeric
          (strip_optional_arg_markers is_whitespace is_alpha_numeric arg) in
      let named = drop_back (λ c. not (name_char c)) a in
      ground (
        arith,
        h,
        last_run-all name_char named,
        last_run-nonempty name_char named,
        drop_back-back name_char a,
      )
