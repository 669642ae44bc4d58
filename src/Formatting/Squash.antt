-- ===== src/Formatting/Squash.antt =====
-- What `squashSpaces` makes of the lines of a text, and when it throws.
use slang_server_extended.Base.{
  subst, sym, ℕ, List, [], ◌∷◌, ◌++◌, map, Bool, true, false, not, ◌&&◌, ◌==◌, none, some, ◌≡◌, ◌↔◌,
  refl, ap, ◌∙◌, arith, is_nil, all_of, keep, append-nil, Bytes,
}
use slang_server_extended.Formatting.Spaces.{AreSquashed, map-AreSquashed}
use slang_server_extended.Formatting.Defs.{
  into_line, get_lines, write_lines, without_last, has_content, squash_content, squash_line,
  squash_spaces,
}

abbrev pub is_newline : ℕ → Bool
is_newline c = c == 10

abbrev pub content_lines : Bytes → List Bytes
content_lines s = keep has_content (get_lines s)

content-into_line : (c : ℕ) (ls : List Bytes) → is_nil (keep has_content (into_line c ls)) ≡ false
content-into_line c [] = refl
content-into_line c (l ∷ ls) = refl

content_lines-newlines : (s : Bytes) → is_nil (content_lines s) ≡ all_of is_newline s
unfolding get_lines
content_lines-newlines [] = refl
content_lines-newlines (c ∷ s) =
    ground (arith, content_lines-newlines s, content-into_line c (get_lines s))

is_nil-write_lines : (ls : List Bytes) → is_nil (write_lines ls) ≡ is_nil ls
unfolding write_lines
is_nil-write_lines [] = refl
is_nil-write_lines ([] ∷ ls) = refl
is_nil-write_lines ((c ∷ l) ∷ ls) = refl

is_nil-map : (f : Bytes → Bytes) (ls : List Bytes) → is_nil (map f ls) ≡ is_nil ls
is_nil-map f [] = refl
is_nil-map f (l ∷ ls) = refl

-- `squashSpaces` throws exactly for the texts that are newlines only, at least one.
pub squash_spaces-throws :
    (s : Bytes) → (squash_spaces s ≡ none) ↔ ((is_nil s ≡ false) × (all_of is_newline s ≡ true))
unfolding squash_spaces
squash_spaces-throws s = ground (
  arith,
  is_nil-write_lines (map squash_line (content_lines s)),
  is_nil-map squash_line (content_lines s),
  content_lines-newlines s,
)

abbrev pub is_free : Bytes → Bool
is_free = all_of (λ c. not (c == 10))

-- Lines without a newline that have content.
abbrev pub are_lines : List Bytes → Bool
are_lines = all_of (λ l. is_free l && has_content l)

get_lines-append : (l x : Bytes) → is_free l ≡ true → get_lines (l ++ (10 ∷ x)) ≡ l ∷ get_lines x
unfolding get_lines
get_lines-append [] x h = refl
get_lines-append (c ∷ l) x h = ground (arith, h, get_lines-append l x)

get_lines-one : (c : ℕ) (l : Bytes) → is_free (c ∷ l) ≡ true → get_lines (c ∷ l) ≡ (c ∷ l) ∷ []
unfolding get_lines
get_lines-one c [] h = ground (arith, h)
get_lines-one c (d ∷ l) h = ground (arith, h, get_lines-one d l)

without_last-cons :
    (c : ℕ) (x : Bytes) → is_nil x ≡ false → without_last (c ∷ x) ≡ c ∷ without_last x
unfolding without_last
without_last-cons c [] h = ground (arith, h)
without_last-cons c (d ∷ x) h = refl

is_nil-append : (l x : Bytes) → is_nil x ≡ false → is_nil (l ++ x) ≡ false
is_nil-append [] x h = h
is_nil-append (c ∷ l) x h = refl

without_last-append : (l x : Bytes) → is_nil x ≡ false → without_last (l ++ x) ≡ l ++ without_last x
without_last-append [] x h = refl
without_last-append (c ∷ l) x h =
    ground (arith, without_last-append l x h, without_last-cons c (l ++ x), is_nil-append l x h)

without_last-one : (l : Bytes) → without_last (write_lines (l ∷ [])) ≡ l
unfolding write_lines without_last
without_last-one l = without_last-append l (10 ∷ []) refl ∙ append-nil l

without_last-more :
    (l m : Bytes) (ls : List Bytes)
    → without_last (write_lines (l ∷ m ∷ ls)) ≡ l ++ (10 ∷ without_last (write_lines (m ∷ ls)))
unfolding write_lines
without_last-more l m ls =
    without_last-append l (10 ∷ write_lines (m ∷ ls)) refl
    ∙ ap (λ r. l ++ r) (without_last-cons 10 (write_lines (m ∷ ls)) (is_nil-write_lines (m ∷ ls)))

get_lines-write_lines :
    (ls : List Bytes) → are_lines ls ≡ true → get_lines (without_last (write_lines ls)) ≡ ls
unfolding write_lines without_last get_lines
get_lines-write_lines [] h = refl
get_lines-write_lines ([] ∷ ls) h = ground (arith, h)
get_lines-write_lines ((c ∷ l) ∷ []) h =
    ap get_lines (without_last-one (c ∷ l)) ∙ get_lines-one c l (ground (arith, h))
get_lines-write_lines ((c ∷ l) ∷ m ∷ ls) h =
    ap get_lines (without_last-more (c ∷ l) m ls)
    ∙ get_lines-append (c ∷ l) (without_last (write_lines (m ∷ ls))) (ground (arith, h))
    ∙ ap (λ r. (c ∷ l) ∷ r) (get_lines-write_lines (m ∷ ls) (ground (arith, h)))

free-squash_content :
    (b : Bool) (l : Bytes) → is_free l ≡ true → is_free (squash_content b l) ≡ true
unfolding squash_content
free-squash_content b [] h = refl
free-squash_content b (c ∷ l) h =
    ground (arith, h, free-squash_content true l, free-squash_content false l)

line-squash_line :
    (l : Bytes)
    → (is_free l ≡ true → is_free (squash_line l) ≡ true)
      × (has_content (squash_line l) ≡ has_content l)
unfolding squash_line squash_content
line-squash_line [] = (λ h. h, refl)
line-squash_line (c ∷ l) = (
  λ h. ground (
    arith,
    h,
    (line-squash_line l).0,
    free-squash_content false l,
    free-squash_content false (c ∷ l),
  ),
  ground arith,
)

lines-map : (ls : List Bytes) → are_lines ls ≡ true → are_lines (map squash_line ls) ≡ true
lines-map [] h = refl
lines-map (l ∷ ls) h =
    ground (arith, h, lines-map ls, (line-squash_line l).0, (line-squash_line l).1)

lines-into_line :
    (c : ℕ) (ls : List Bytes)
    → (c == 10) ≡ false
    → all_of is_free ls ≡ true
    → all_of is_free (into_line c ls) ≡ true
lines-into_line c [] n h = ground (arith, n)
lines-into_line c (l ∷ ls) n h = ground (arith, n, h)

free-get_lines : (s : Bytes) → all_of is_free (get_lines s) ≡ true
unfolding get_lines
free-get_lines [] = refl
free-get_lines (c ∷ s) = ground (arith, free-get_lines s, lines-into_line c (get_lines s))

lines-keep : (ls : List Bytes) → all_of is_free ls ≡ true → are_lines (keep has_content ls) ≡ true
lines-keep [] h = refl
lines-keep (l ∷ ls) h = ground (arith, h, lines-keep ls)

squash_spaces-lines :
    (s t : Bytes)
    → is_nil s ≡ false
    → squash_spaces s ≡ some t
    → get_lines t ≡ map squash_line (content_lines s)
unfolding squash_spaces
squash_spaces-lines s t n h =
    let ls = map squash_line (content_lines s) in
    ground (
      arith,
      n,
      h,
      get_lines-write_lines ls
          (lines-map (content_lines s) (lines-keep (get_lines s) (free-get_lines s))),
    )

-- Where `squashSpaces` returns for a text that is not empty, the lines of the result are the lines of
-- the text that have content, in their order, each with its indentation as it was and, behind that,
-- with each whole run of spaces made one space and all else kept.
pub get_lines-squash_spaces :
    (s t : Bytes)
    → is_nil s ≡ false
    → squash_spaces s ≡ some t
    → AreSquashed (content_lines s) (get_lines t)
get_lines-squash_spaces s t n h =
    subst (AreSquashed (content_lines s)) (sym (squash_spaces-lines s t n h))
      (map-AreSquashed (content_lines s))
