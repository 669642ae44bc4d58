-- ===== src/SlangDoc/Samples.antt =====
-- Runs on small texts and on a fragment with two owners. `offsets` finds the lines as slang's
-- `computeLineOffsets` does for texts whose lines end in "\n".
use mathlib.Core.List.{Memᴰ}
use mathlib.Core.List.Memᴰ.{head, tail}
use slang_server_extended.Base.{
  ℕ, ◌+◌, Bytes, List, [], ◌∷◌, ◌++◌, map, Bool, true, false, ◌==◌, if◌then◌else◌, none, some, ◌≡◌,
  refl, codes, arith, ap, is_nil,
}
use slang_server_extended.SlangDoc.Defs.{
  Position, Range, ContentChange, partial, edited, throws, first_change, later_change, SlangDoc,
  on_change, reload_buffer, text_matches,
}
use slang_server_extended.SlangDoc.Splices.{with_nul}
use slang_server_extended.SlangDoc.Edits.{change_texts, on_change-throws}
use slang_server_extended.SlangDoc.Fragments.{
  DedupeKey, has_key, Owner, order_owners, issue_include_fragment_diagnostics,
}
use slang_server_extended.SlangDoc.Union.{
  Points, are_distinct, issue_include_fragment_diagnostics-are_distinct,
}
use slang_server_extended.SlangDoc.Perspectives.{
  issue_include_fragment_diagnostics-Points, issue_include_fragment_diagnostics-open,
}

abbrev starts_from : ℕ → Bytes → List ℕ
starts_from n [] = []
starts_from n (c ∷ s) = if c == 10 then (n + 1) ∷ starts_from (n + 1) s else starts_from (n + 1) s

abbrev offsets : Bytes → List ℕ
offsets s = 0 ∷ starts_from 0 s

starts_from-with_nul : (n : ℕ) (t : Bytes) → starts_from n (with_nul t) ≡ starts_from n t
starts_from-with_nul n [] = refl
starts_from-with_nul n (c ∷ t) = ground (arith, starts_from-with_nul (n + 1) t)

offsets-with_nul : (t : Bytes) → offsets (with_nul t) ≡ offsets t
offsets-with_nul t = ap (◌∷◌ 0) (starts_from-with_nul 0 t)

abbrev text : Bytes
text = codes "ab" ++ (10 ∷ codes "cd")

abbrev doc : SlangDoc ℕ ℕ
doc = record { buffer = with_nul text; tree = some 1; analysis = some 2 }

abbrev at : ℕ → ℕ → Position
at l c = record { line = l; character = c }

abbrev range : ℕ → ℕ → ℕ → ℕ → Range
range l c m d = record { start = at l c; stop = at m d }

-- "ab\ncd", with "b\nc" replaced by "xyz", and then "z" deleted.
abbrev changes : List ContentChange
changes = partial (range 0 1 1 1) (codes "xyz") ∷ partial (range 0 3 0 4) [] ∷ []

on_change-throws_example :
    on_change offsets doc (partial (range 0 1 1 1) [] ∷ partial (range 0 0 1 0) [] ∷ []) ≡ throws
unfolding change_texts
on_change-throws_example =
    on_change-throws offsets offsets-with_nul doc text (codes "ad") (partial (range 0 0 1 0) [])
      (partial (range 0 1 1 1) [] ∷ []) [] refl refl refl refl

-- A reversed range: the first change doubles the text between, a later one only inserts.
reversed_first : first_change offsets text (partial (range 0 1 0 0) []) ≡ edited (codes "a" ++ text)
unfolding first_change
reversed_first = refl

reversed_later : later_change offsets text (partial (range 0 1 0 0) []) ≡ edited text
unfolding later_change
reversed_later = refl

-- A column past the end of its line reaches into the next one.
column_past_line :
    first_change offsets text (partial (range 0 3 0 4) []) ≡ edited (codes "ab" ++ (10 ∷ codes "d"))
unfolding first_change
column_past_line = refl

kept_on_failure : reload_buffer doc none ≡ (false, doc)
unfolding reload_buffer
kept_on_failure = refl

accepts : text_matches (with_nul text) text ≡ true
unfolding text_matches
accepts = refl

-- A diagnostic by its buffer and its key.
abbrev Located : Type 0
Located = ℕ × DedupeKey

abbrev problem : ℕ → ℕ → Located
problem b line = (b, record { code = 1; line = line; col = 4 })

-- One problem in both owners, one in the second only, and one outside of the fragment.
abbrev owner_a : Owner Located
owner_a = record {
  tree = some (problem 7 3 ∷ []);
  buffer_for_path = some 7;
  semantic_diagnostics = problem 6 9 ∷ [];
  analysis_diags = [];
}

abbrev owner_b : Owner Located
owner_b = record {
  tree = some (problem 8 3 ∷ []);
  buffer_for_path = some 8;
  semantic_diagnostics = [];
  analysis_diags = problem 8 5 ∷ [];
}

abbrev buffer_of : Located → ℕ
buffer_of d = d.0

abbrev key_of : Located → DedupeKey
key_of d = d.1

abbrev opened : Owner Located → Bool
opened o = is_nil o.semantic_diagnostics

abbrev owners : List (Owner Located)
owners = owner_a ∷ owner_b ∷ []

unioned :
    issue_include_fragment_diagnostics buffer_of key_of opened owners
    ≡ problem 8 3 ∷ problem 8 5 ∷ []
unfolding issue_include_fragment_diagnostics
unioned = refl

issue_include_fragment_diagnostics-are_distinct_example :
    are_distinct (map key_of (issue_include_fragment_diagnostics buffer_of key_of opened owners))
    ≡ true
issue_include_fragment_diagnostics-are_distinct_example =
    issue_include_fragment_diagnostics-are_distinct buffer_of key_of opened owners

issue_include_fragment_diagnostics-Points_example :
    (o : Owner Located) × Memᴰ o (order_owners opened owners)
    × Points buffer_of key_of o (problem 8 5)
unfolding issue_include_fragment_diagnostics
issue_include_fragment_diagnostics-Points_example =
    issue_include_fragment_diagnostics-Points buffer_of key_of opened owners (problem 8 5)
      (tail (head refl))

issue_include_fragment_diagnostics-open_example :
    has_key
      (map key_of (issue_include_fragment_diagnostics buffer_of key_of opened owners))
      (record { code = 1; line = 5; col = 4 })
    ≡ true
issue_include_fragment_diagnostics-open_example =
    issue_include_fragment_diagnostics-open buffer_of key_of opened owners owner_b (problem 8 5)
      (tail (head refl)) refl (omega arith)
      (record { parse = problem 8 3 ∷ []; tree = refl; found = refl; member = tail (head refl) })
