-- ===== src/SlangDoc/Edits.antt =====
-- `onChange` as a change of the text alone, without the NUL behind it, which is the server's. A
-- position is read as the code reads it: the start of its line and so many bytes.
use slang_server_extended.Base.{
  ℕ, ◌+◌, ◌≤◌, zero, suc, Bytes, List, [], ◌∷◌, ◌++◌, Bool, true, false, not, ◌&&◌, ◌||◌, leb,
  length, if◌then◌else◌, Option, none, some, ◌>>=◌, ◌≡◌, subst, refl, sym, ap, arith, Bool-cases,
  Option-cases, inl, inr, all_of, ◌⊎◌, get_elem?,
}
use slang_server_extended.SlangDoc.Defs.{
  Position, Range, ContentChange, partial, whole_document, edited, throws, ends_in_nul,
  ensure_null_terminated, range_offsets, get_offsets, first_change, later_change, later_changes,
  SlangDoc, replace_buffer, on_change,
}
use slang_server_extended.SlangDoc.Splices.{
  with_nul, splice, ensure_null_terminated-done, ensure_null_terminated-adds, copy_around-splice,
  erase-insert-splice,
}

-- The change's own text does not end in a NUL, where it becomes the whole document.
abbrev pub is_text : ContentChange → Bool
is_text (partial r x) = true
is_text (whole_document x) = not (ends_in_nul x)

-- What a partial change makes of a text, for the offsets of its range: none where the range is
-- reversed or leaves the text.
unfoldable pub replace_range : Bytes → Bytes → Option ℕ → Option ℕ → Option Bytes
replace_range t x (some s) (some e) =
    if leb s e && leb e (length t) then some (splice t s e x) else none
replace_range t x (some s) none = none
replace_range t x none e = none

abbrev pub shifted_by : ℕ → Option ℕ → Option ℕ
shifted_by n none = none
shifted_by n (some k) = some (k + n)

module _ (line_offsets : Bytes → List ℕ) where
  abbrev pub offset : Bytes → Position → Option ℕ
  offset t p = shifted_by p.character (get_elem? (line_offsets t) p.line)

  unfoldable pub change_text : Bytes → ContentChange → Option Bytes
  unfolding replace_range
  change_text t (partial r x) = replace_range t x (offset t r.start) (offset t r.stop)
  change_text t (whole_document x) = some x

  -- The changes in their order, each on the text that the one before it leaves.
  unfoldable pub change_texts : Bytes → List ContentChange → Option Bytes
  unfolding change_text
  change_texts t [] = some t
  change_texts t (c ∷ cs) = change_text t c >>= λ u. change_texts u cs

  -- A partial change names a line that the text does not have.
  abbrev pub misses_line : Bytes → ContentChange → Bool
  misses_line t (partial r x) =
      let lines = length (line_offsets t) in leb lines r.start.line || leb lines r.stop.line
  misses_line t (whole_document x) = false

get_elem?-none : (os : List ℕ) (n : ℕ) → leb (length os) n ≡ true → get_elem? os n ≡ none
get_elem?-none [] n h = refl
get_elem?-none (o ∷ os) zero h = ground (arith, h)
get_elem?-none (o ∷ os) (suc n) h = get_elem?-none os n (ground arith)

range_offsets-throws :
    (r : Range) (os oe : Option ℕ) → (os ≡ none) ⊎ (oe ≡ none) → range_offsets r os oe ≡ throws
unfolding range_offsets
range_offsets-throws r none oe h = refl
range_offsets-throws r (some s) none h = refl
range_offsets-throws r (some s) (some e) h = ground (arith, h)

-- The range of a change that the text admits.
replace_range-fits :
    (t x u : Bytes) (r : Range) (os oe : Option ℕ)
    → replace_range t x (shifted_by r.start.character os) (shifted_by r.stop.character oe) ≡ some u
    → (s : ℕ) × (e : ℕ) × (range_offsets r os oe ≡ edited (s, e))
      × (s ≤ e)
      × (e ≤ length t)
      × (splice t s e x ≡ u)
unfolding range_offsets replace_range
replace_range-fits t x u r none oe h = ground (arith, h)
replace_range-fits t x u r (some s) none h = ground (arith, h)
replace_range-fits t x u r (some s) (some e) h =
    (s + r.start.character, e + r.stop.character, refl, ground arith, ground arith, ground arith)

module _ (line_offsets : Bytes → List ℕ)
    (keeps : (t : Bytes) → line_offsets (with_nul t) ≡ line_offsets t) where
  get_offsets-fits :
      (t x u : Bytes) (r : Range)
      → change_text line_offsets t (partial r x) ≡ some u
      → (s : ℕ) × (e : ℕ) × (get_offsets line_offsets (with_nul t) r ≡ edited (s, e))
        × (s ≤ e)
        × (e ≤ length t)
        × (splice t s e x ≡ u)
  unfolding get_offsets change_text
  get_offsets-fits t x u r h = rw (keeps t) (
      replace_range-fits t x u r (get_elem? (line_offsets t) r.start.line)
        (get_elem? (line_offsets t) r.stop.line) h)

  whole_document-text :
      (t x u : Bytes)
      → not (ends_in_nul x) ≡ true
      → change_text line_offsets t (whole_document x) ≡ some u
      → ensure_null_terminated x ≡ with_nul u
  unfolding change_text
  whole_document-text t x u p h = ground (arith, h, ensure_null_terminated-adds x)

  first_change-text :
      (t u : Bytes) (c : ContentChange)
      → is_text c ≡ true
      → change_text line_offsets t c ≡ some u
      → (b : Bytes) × (first_change line_offsets (with_nul t) c ≡ edited b)
        × (ensure_null_terminated b ≡ with_nul u)
  unfolding first_change
  first_change-text t u (partial r x) p h =
      let (s, e, at, le, fits, is) = get_offsets-fits t x u r h in
      (
        with_nul u,
        rw (at, copy_around-splice t x s e (omega arith) fits, is) refl,
        ensure_null_terminated-done u,
      )
  first_change-text t u (whole_document x) p h = (x, refl, whole_document-text t x u p h)

  later_change-text :
      (t u : Bytes) (c : ContentChange)
      → is_text c ≡ true
      → change_text line_offsets t c ≡ some u
      → later_change line_offsets (with_nul t) c ≡ edited (with_nul u)
  unfolding later_change
  later_change-text t u (partial r x) p h =
      let (s, e, at, le, fits, is) = get_offsets-fits t x u r h in
      rw (at, erase-insert-splice t x s e le fits, is) refl
  later_change-text t u (whole_document x) p h = ap edited (whole_document-text t x u p h)

  later_changes-texts :
      (t u : Bytes) (cs : List ContentChange)
      → all_of is_text cs ≡ true
      → change_texts line_offsets t cs ≡ some u
      → later_changes line_offsets (with_nul t) cs ≡ edited (with_nul u)
  unfolding later_changes change_texts
  later_changes-texts t u [] p h = ground (arith, h)
  later_changes-texts t u (c ∷ cs) p h = elim (Option-cases (change_text line_offsets t c)) [
    | inl fails ↦ ground (arith, h, fails)
    | inr (v, is) ↦
        rw (later_change-text t v c (ground arith) is)
          (later_changes-texts v u cs (ground arith) (ground (arith, h, is)))
  ]

  get_offsets-throws :
      (t x : Bytes) (r : Range)
      → misses_line line_offsets t (partial r x) ≡ true
      → get_offsets line_offsets (with_nul t) r ≡ throws
  unfolding get_offsets
  get_offsets-throws t x r m = rw (keeps t) (
      range_offsets-throws r (get_elem? (line_offsets t) r.start.line)
        (get_elem? (line_offsets t) r.stop.line)
        (elim (Bool-cases (leb (length (line_offsets t)) r.start.line)) [
          | inl over ↦ inl (get_elem?-none (line_offsets t) r.start.line over)
          | inr below ↦ inr (get_elem?-none (line_offsets t) r.stop.line (ground (arith, m, below)))
        ]))

  first_change-throws :
      (t : Bytes) (c : ContentChange)
      → misses_line line_offsets t c ≡ true
      → first_change line_offsets (with_nul t) c ≡ throws
  unfolding first_change
  first_change-throws t (partial r x) m = rw (get_offsets-throws t x r m) refl
  first_change-throws t (whole_document x) m = cc

  later_change-throws :
      (t : Bytes) (c : ContentChange)
      → misses_line line_offsets t c ≡ true
      → later_change line_offsets (with_nul t) c ≡ throws
  unfolding later_change
  later_change-throws t (partial r x) m = rw (get_offsets-throws t x r m) refl
  later_change-throws t (whole_document x) m = cc

  later_changes-throws :
      (t u : Bytes) (cs ds : List ContentChange) (c : ContentChange)
      → all_of is_text cs ≡ true
      → change_texts line_offsets t cs ≡ some u
      → misses_line line_offsets u c ≡ true
      → later_changes line_offsets (with_nul t) (cs ++ (c ∷ ds)) ≡ throws
  unfolding later_changes change_texts
  later_changes-throws t u [] ds c p h m =
      let e : t ≡ u = ground (arith, h) in
      rw (later_change-throws t c (subst (λ v. misses_line line_offsets v c ≡ true) (sym e) m)) refl
  later_changes-throws t u (b ∷ cs) ds c p h m =
      elim (Option-cases (change_text line_offsets t b)) [
        | inl fails ↦ ground (arith, h, fails)
        | inr (v, is) ↦
            rw (later_change-text t v b (ground arith) is)
              (later_changes-throws v u cs ds c (ground arith) (ground (arith, h, is)) m)
      ]

  module _ {ℓ} {Tree Analysis : Type ℓ} where
    -- Where every change of a list can be applied, no whole text ending in a NUL, `onChange` leaves the
    -- document with the resulting text and one NUL behind it.
    pub on_change-edited :
        (doc : SlangDoc Tree Analysis) (t u : Bytes) (c : ContentChange) (cs : List ContentChange)
        → doc.buffer ≡ with_nul t
        → all_of is_text (c ∷ cs) ≡ true
        → change_texts line_offsets t (c ∷ cs) ≡ some u
        → on_change line_offsets doc (c ∷ cs) ≡ edited (replace_buffer doc (with_nul u))
    unfolding on_change change_texts
    on_change-edited doc t u c cs d p h = elim (Option-cases (change_text line_offsets t c)) [
      | inl fails ↦ ground (arith, h, fails)
      | inr (v, is) ↦
          let (b, first, ends) = first_change-text t v c (ground arith) is in
          rw (d, first, ends, later_changes-texts v u cs (ground arith) (ground (arith, h, is)))
            refl
    ]

    -- Where a list of changes begins with changes that can be applied, none of which makes a text
    -- that ends in a NUL the whole document, and the next one names a line that the text does not
    -- have by then, `onChange` throws.
    pub on_change-throws :
        (doc : SlangDoc Tree Analysis) (t u : Bytes) (c : ContentChange)
        (cs ds : List ContentChange)
        → doc.buffer ≡ with_nul t
        → all_of is_text cs ≡ true
        → change_texts line_offsets t cs ≡ some u
        → misses_line line_offsets u c ≡ true
        → on_change line_offsets doc (cs ++ (c ∷ ds)) ≡ throws
    unfolding on_change change_texts
    on_change-throws doc t u c [] ds d p h m =
        let e : t ≡ u = ground (arith, h) in
        rw (d, first_change-throws t c (subst (λ v. misses_line line_offsets v c ≡ true) (sym e) m))
          refl
    on_change-throws doc t u c (b ∷ cs) ds d p h m =
        elim (Option-cases (change_text line_offsets t b)) [
          | inl fails ↦ ground (arith, h, fails)
          | inr (v, is) ↦
              let (w, first, ends) = first_change-text t v b (ground arith) is in
              rw
                (
                  d,
                  first,
                  ends,
                  later_changes-throws v u cs ds c (ground arith) (ground (arith, h, is)) m,
                )
                refl
        ]
