-- ===== src/SystemTasks/Trimming.antt =====
-- Trimming, and the loops that strip the markers of optional arguments.
use slang_server_extended.Base.{
  ℕ, zero, suc, ◌+◌, ◌≤◌, [], ◌∷◌, ◌++◌, Bool, true, false, ◌&&◌, if◌then◌else◌, ◌≡◌, refl, ap,
  arith, length, is_nil, all_of, Bytes, Bool-cases, inl, inr, append_assoc,
}
use slang_server_extended.SystemTasks.Text.{
  front_is, back_is, without_back, drop_front, drop_back, trim,
}
use slang_server_extended.SystemTasks.Signature.{
  is_opening_marker, is_closing_marker, strip_front, strip_back,
}

module _ (p : ℕ → Bool) where
  length-drop_front : (s : Bytes) → length (drop_front p s) ≤ length s
  unfolding drop_front
  length-drop_front [] = ground arith
  length-drop_front (c ∷ s) = ground (arith, length-drop_front s)

  length-drop_back : (s : Bytes) → length (drop_back p s) ≤ length s
  unfolding drop_back
  length-drop_back [] = ground arith
  length-drop_back (c ∷ s) = ground (arith, length-drop_back s)

  front-drop_front : (s : Bytes) → front_is p (drop_front p s) ≡ false
  unfolding drop_front
  front-drop_front [] = refl
  front-drop_front (c ∷ s) = ground (arith, front-drop_front s)

  front-drop_back : (s : Bytes) → front_is p s ≡ false → front_is p (drop_back p s) ≡ false
  unfolding drop_back
  front-drop_back [] h = refl
  front-drop_back (c ∷ s) h = ground (arith, h)

  back-step :
      (c : ℕ) (r : Bytes)
      → back_is p r ≡ false
      → back_is p (if is_nil r && p c then [] else c ∷ r) ≡ false
  back-step c [] h = ground (arith, h)
  back-step c (d ∷ r) h = h

  back-drop_back : (s : Bytes) → back_is p (drop_back p s) ≡ false
  unfolding drop_back
  back-drop_back [] = refl
  back-drop_back (c ∷ s) = back-step c (drop_back p s) (back-drop_back s)

length-without_back : (c : ℕ) (s : Bytes) → length (without_back (c ∷ s)) + 1 ≡ length (c ∷ s)
length-without_back c [] = ground arith
length-without_back c (d ∷ s) = ground (arith, length-without_back d s)

-- The bytes that the trimming takes away are whitespace.
dropped-front :
    (p : ℕ → Bool) (s : Bytes) → (u : Bytes) × (s ≡ u ++ drop_front p s) × (all_of p u ≡ true)
unfolding drop_front
dropped-front p [] = ([], refl, refl)
dropped-front p (c ∷ s) = elim (Bool-cases (p c)) [
  | inl is ↦
      (let rest = dropped-front p s in
        (c ∷ rest.0, ground (arith, is, rest.1), ground (arith, is, rest.2)))
  | inr other ↦ ([], ground (arith, other), refl)
]

dropped-whole :
    (p : ℕ → Bool) (c : ℕ) (s r u : Bytes)
    → (is_nil r && p c) ≡ true
    → s ≡ r ++ u
    → all_of p u ≡ true
    → all_of p (c ∷ s) ≡ true
dropped-whole p c s [] u h e a = ground (arith, h, ap (all_of p) e, a)
dropped-whole p c s (d ∷ r) u h e a = ground (arith, h)

dropped-back :
    (p : ℕ → Bool) (s : Bytes) → (u : Bytes) × (s ≡ drop_back p s ++ u) × (all_of p u ≡ true)
unfolding drop_back
dropped-back p [] = ([], refl, refl)
dropped-back p (c ∷ s) =
    let rest = dropped-back p s in
    elim (Bool-cases (is_nil (drop_back p s) && p c)) [
      | inl is ↦
          (c ∷ s, ground (arith, is), dropped-whole p c s (drop_back p s) rest.0 is rest.1 rest.2)
      | inr other ↦ (rest.0, ground (arith, other, rest.1), rest.2)
    ]

module _ (is_whitespace is_alpha_numeric : ℕ → Bool) where
  abbrev pub trimmed : Bytes → Bytes
  trimmed = trim is_whitespace is_alpha_numeric

  length-trim : (s : Bytes) → length (trimmed s) ≤ length s
  unfolding trim
  length-trim s = ground (
    arith,
    length-drop_back is_whitespace (drop_front is_whitespace s),
    length-drop_front is_whitespace s,
  )

  strip_front-front :
      (n : ℕ) (s : Bytes)
      → length s ≤ n
      → front_is is_opening_marker (strip_front is_whitespace is_alpha_numeric n s) ≡ false
  unfolding strip_front
  strip_front-front zero [] h = refl
  strip_front-front zero (c ∷ s) h = ground (arith, h)
  strip_front-front (suc n) [] h = refl
  strip_front-front (suc n) (c ∷ s) h =
      ground (arith, h, strip_front-front n (trimmed s), length-trim s)

  strip_back-back :
      (n : ℕ) (s : Bytes)
      → length s ≤ n
      → back_is is_closing_marker (strip_back is_whitespace is_alpha_numeric n s) ≡ false
  unfolding strip_back
  strip_back-back zero [] h = refl
  strip_back-back zero (c ∷ s) h = ground (arith, h)
  strip_back-back (suc n) [] h = refl
  strip_back-back (suc n) (c ∷ s) h = ground (
    arith,
    h,
    strip_back-back n (trimmed (without_back (c ∷ s))),
    length-trim (without_back (c ∷ s)),
    length-without_back c s,
  )

  -- Each of the two loops that strip the markers of optional arguments ends within as many rounds as
  -- the text has bytes: what is left does not begin, or end, with one of its markers.
  pub strip_loops_end :
      (s : Bytes)
      → (front_is is_opening_marker (strip_front is_whitespace is_alpha_numeric (length s) s)
          ≡ false)
        × (back_is is_closing_marker (strip_back is_whitespace is_alpha_numeric (length s) s)
            ≡ false)
  strip_loops_end s =
      (strip_front-front (length s) s (ground arith), strip_back-back (length s) s (ground arith))

  -- A text is its trimmed text with whitespace around it, and the trimmed text neither begins nor ends
  -- with whitespace.
  pub trim-around :
      (s : Bytes)
      → (u v : Bytes) × (s ≡ u ++ trimmed s ++ v)
        × (all_of is_whitespace u ≡ true)
        × (all_of is_whitespace v ≡ true)
        × (front_is is_whitespace (trimmed s) ≡ false)
        × (back_is is_whitespace (trimmed s) ≡ false)
  unfolding trim
  trim-around s =
      let front = dropped-front is_whitespace s in
      let back = dropped-back is_whitespace (drop_front is_whitespace s) in
      (
        front.0,
        back.0,
        ground (arith, front.1, back.1, append_assoc front.0 (trimmed s) back.0),
        front.2,
        back.2,
        front-drop_back is_whitespace (drop_front is_whitespace s)
            (front-drop_front is_whitespace s),
        back-drop_back is_whitespace (drop_front is_whitespace s),
      )
