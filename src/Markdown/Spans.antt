-- ===== src/Markdown/Spans.antt =====
-- How CommonMark reads code spans.
use slang_server_extended.Base.{
  starts_with, ℕ, zero, suc, ◌+◌, ◌<◌, ◌≤◌, max, [], ◌∷◌, ◌++◌, Bool, true, false, not, ◌&&◌, ◌||◌,
  ◌==◌, ltb, if◌then◌else◌, Option, none, some, ◌≡◌, refl, ap, ◌∙◌, arith, Bytes, replicate, codes,
  all_of, append_assoc, Bool-cases, inl, inr,
}
use slang_server_extended.Markdown.Escape.{back_is}
use slang_server_extended.Markdown.Paragraph.{longest_run, delimited, code_span}

-- CommonMark's code spans: the text behind an opening run of n backticks up to the next run of exactly
-- n, `run` being the length of the run in front of it.
unfoldable pub until_closed : ℕ → ℕ → Bytes → Option Bytes
until_closed n run [] = if run == n then some [] else none
until_closed n run (c ∷ s) =
    let longer = until_closed n (suc run) s in
    let rest = until_closed n 0 s in
    if c == b'`'
    then longer
    else if run == n
    then some []
    else elim rest [ none ↦ none | some r ↦ some (replicate run b'`' ++ (c ∷ r)) ]

abbrev pub opening_run : Bytes → ℕ
opening_run [] = 0
opening_run (c ∷ s) = if c == b'`' then suc (opening_run s) else 0

abbrev pub behind_run : Bytes → Bytes
behind_run [] = []
behind_run (c ∷ s) = if c == b'`' then behind_run s else c ∷ s

-- One space is taken off at both ends where both are there and something else is too.
abbrev pub drop_last : Bytes → Bytes
drop_last [] = []
drop_last (c ∷ []) = []
drop_last (c ∷ d ∷ s) = c ∷ drop_last (d ∷ s)

unfoldable pub stripped : Bytes → Bytes
stripped [] = []
stripped (c ∷ s) =
    if c == 32 && back_is (λ d. d == 32) s && not (all_of (λ d. d == 32) s)
    then drop_last s
    else c ∷ s

-- A line ending is read as a space.
unfoldable pub line_endings_to_spaces : Bytes → Bytes
line_endings_to_spaces [] = []
line_endings_to_spaces (c ∷ s) =
    let rest = line_endings_to_spaces s in
    if c == 13 && starts_with s (10 ∷ [])
    then rest
    else if c == 10 || c == 13
    then 32 ∷ rest
    else c ∷ rest

unfoldable pub read_span : Bytes → Option Bytes
unfolding until_closed stripped line_endings_to_spaces
read_span s = elim (until_closed (opening_run s) 0 (behind_run s)) [
  | none ↦ none
  | some content ↦ some (stripped (line_endings_to_spaces content))
]

abbrev pub is_inline : ℕ → Bool
is_inline c = not (c == 10 || c == 13)

line_endings-none : (s : Bytes) → all_of is_inline s ≡ true → line_endings_to_spaces s ≡ s
unfolding line_endings_to_spaces
line_endings-none [] h = refl
line_endings-none (c ∷ s) h = ground (arith, h, line_endings-none s)

inline-spaced : (s : Bytes) → all_of is_inline s ≡ true → all_of is_inline (s ++ (32 ∷ [])) ≡ true
inline-spaced [] h = refl
inline-spaced (c ∷ s) h = ground (arith, h, inline-spaced s)

abbrev ticks : ℕ → Bytes
ticks n = replicate n b'`'

-- Running on over n backticks at the end of the text closes a span of n.
until_closed-ticks : (n k j : ℕ) → j + k ≡ n → until_closed n j (replicate k b'`') ≡ some []
unfolding until_closed
until_closed-ticks n zero j e = ground (arith, e)
until_closed-ticks n (suc k) j e = ground (arith, until_closed-ticks n k (suc j))

longest_run-grows : (m r : ℕ) (s : Bytes) → m ≤ longest_run m r s
unfolding longest_run
longest_run-grows m r [] = ground arith
longest_run-grows m r (c ∷ s) =
    ground (arith, longest_run-grows (max m (suc r)) (suc r) s, longest_run-grows m 0 s)

replicate-snoc : (k c : ℕ) (s : Bytes) → replicate (suc k) c ++ s ≡ replicate k c ++ (c ∷ s)
replicate-snoc zero c s = refl
replicate-snoc (suc k) c s = ap (λ r. c ∷ r) (replicate-snoc k c s)

-- Text whose runs are shorter than n, and that ends in a space, does not close a span of n.
until_closed-shorter :
    (n m r : ℕ) (s : Bytes)
    → longest_run m r s < n
    → r ≤ m
    → until_closed n r (s ++ (32 ∷ ticks n)) ≡ some (replicate r b'`' ++ (s ++ (32 ∷ [])))
unfolding until_closed longest_run
until_closed-shorter n m r [] h le = ground (arith, until_closed-ticks n n 0)
until_closed-shorter n m r (c ∷ s) h le = ground (
  arith,
  until_closed-shorter n (max m (suc r)) (suc r) s,
  until_closed-shorter n m 0 s,
  longest_run-grows m 0 s,
  replicate-snoc r b'`' (s ++ (32 ∷ [])),
)

until_closed-plain : (s : Bytes) → longest_run 0 0 s ≡ 0 → until_closed 1 0 (s ++ ticks 1) ≡ some s
unfolding until_closed longest_run
until_closed-plain [] h = ground arith
until_closed-plain (c ∷ s) h = ground (arith, h, until_closed-plain s, longest_run-grows 1 1 s)

module _ (c : ℕ) (s : Bytes) (n : (c == b'`') ≡ false) where
  opening_run-ticks : (k : ℕ) → opening_run (replicate k b'`' ++ (c ∷ s)) ≡ k
  opening_run-ticks zero = ground (arith, n)
  opening_run-ticks (suc k) = ground (arith, opening_run-ticks k)

  behind_run-ticks : (k : ℕ) → behind_run (replicate k b'`' ++ (c ∷ s)) ≡ c ∷ s
  behind_run-ticks zero = ground (arith, n)
  behind_run-ticks (suc k) = ground (arith, behind_run-ticks k)

drop_last-snoc : (c : ℕ) (s : Bytes) → drop_last (s ++ (c ∷ [])) ≡ s
drop_last-snoc c [] = refl
drop_last-snoc c (d ∷ []) = refl
drop_last-snoc c (d ∷ e ∷ s) = ap (λ r. d ∷ r) (drop_last-snoc c (e ∷ s))

back_is-snoc : (p : ℕ → Bool) (c : ℕ) (s : Bytes) → back_is p (s ++ (c ∷ [])) ≡ p c
back_is-snoc p c [] = refl
back_is-snoc p c (d ∷ []) = refl
back_is-snoc p c (d ∷ e ∷ s) = back_is-snoc p c (e ∷ s)

longest_run-spaces :
    (m r : ℕ) (s : Bytes) → all_of (λ d. d == 32) (s ++ (32 ∷ [])) ≡ true → longest_run m r s ≡ m
unfolding longest_run
longest_run-spaces m r [] h = refl
longest_run-spaces m r (c ∷ s) h = ground (arith, h, longest_run-spaces m 0 s)

stripped-spaced : (s : Bytes) → 0 < longest_run 0 0 s → stripped (32 ∷ (s ++ (32 ∷ []))) ≡ s
unfolding stripped
stripped-spaced s h =
    ground
      (arith, h, drop_last-snoc 32 s, back_is-snoc (λ d. d == 32) 32 s, longest_run-spaces 0 0 s)

until_closed-spaced :
    (n : ℕ) (s : Bytes)
    → longest_run 0 0 s < n
    → until_closed n 0 (32 ∷ (s ++ (32 ∷ ticks n))) ≡ some (32 ∷ (s ++ (32 ∷ [])))
unfolding until_closed
until_closed-spaced n s h = ground (arith, h, until_closed-shorter n 0 0 s)

read_span-closed :
    (n : ℕ) (s t r : Bytes)
    → opening_run s ≡ n
    → behind_run s ≡ t
    → until_closed n 0 t ≡ some r
    → all_of is_inline r ≡ true
    → read_span s ≡ some (stripped r)
unfolding read_span
read_span-closed n s t r o b u l = ground (arith, o, b, u, line_endings-none r l)

delimited-spaced :
    (m : ℕ) (s : Bytes)
    → 0 < m
    → delimited m s ≡ ticks (suc m) ++ (32 ∷ (s ++ (32 ∷ ticks (suc m))))
unfolding delimited
delimited-spaced m s h =
    let d = ticks (suc m) in
    ground (
      arith,
      h,
      append_assoc (d ++ codes " " ++ s) (codes " ") d,
      append_assoc (d ++ codes " ") s (32 ∷ d),
      append_assoc d (codes " ") (s ++ (32 ∷ d)),
    )

read_span-spaced :
    (s : Bytes)
    → 0 < longest_run 0 0 s
    → all_of is_inline s ≡ true
    → read_span (code_span s) ≡ some s
unfolding code_span
read_span-spaced s p l =
    let m = longest_run 0 0 s in
    let n = suc m in
    let t = s ++ (32 ∷ ticks n) in
    ap read_span (delimited-spaced m s p)
    ∙ read_span-closed n (ticks n ++ (32 ∷ t)) (32 ∷ t) (32 ∷ (s ++ (32 ∷ [])))
        (opening_run-ticks 32 t refl n) (behind_run-ticks 32 t refl n)
        (until_closed-spaced n s (omega arith)) (inline-spaced s l)
    ∙ ap some (stripped-spaced s p)

-- Where no backtick is in the way, the spaces at both ends are what could be lost.
stripped-plain :
    (c : ℕ) (s : Bytes)
    → (c == 32 && back_is (λ d. d == 32) (c ∷ s)) ≡ false
    → stripped (c ∷ s) ≡ c ∷ s
unfolding stripped
stripped-plain c [] h = ground (arith, h)
stripped-plain c (d ∷ s) h = ground (arith, h)

no_tick_in_front : (c : ℕ) (s : Bytes) → longest_run 0 0 (c ∷ s) ≡ 0 → (c == b'`') ≡ false
unfolding longest_run
no_tick_in_front c s h = ground (arith, h, longest_run-grows 1 1 s)

delimited-plain : (s : Bytes) → delimited 0 s ≡ ticks 1 ++ (s ++ ticks 1)
unfolding delimited
delimited-plain s = refl

read_span-plain :
    (c : ℕ) (s : Bytes)
    → longest_run 0 0 (c ∷ s) ≡ 0
    → (c == 32 && back_is (λ d. d == 32) (c ∷ s)) ≡ false
    → all_of is_inline (c ∷ s) ≡ true
    → read_span (code_span (c ∷ s)) ≡ some (c ∷ s)
unfolding code_span
read_span-plain c s h k l =
    let n = no_tick_in_front c s h in
    let t = s ++ ticks 1 in
    ap (λ m. read_span (delimited m (c ∷ s))) h
    ∙ ap read_span (delimited-plain (c ∷ s))
    ∙ read_span-closed 1 (ticks 1 ++ (c ∷ t)) (c ∷ t) (c ∷ s) (opening_run-ticks c t n 1)
        (behind_run-ticks c t n 1) (until_closed-plain (c ∷ s) h) l
    ∙ ap some (stripped-plain c s k)

-- CommonMark reads the code span that `appendCode` writes as its code, whatever backticks the code
-- has, where the code is not empty, has no line ending, and, if it has no backtick, does not have a
-- space at both ends.
pub read_span-code_span :
    (c : ℕ) (s : Bytes)
    → (ltb 0 (longest_run 0 0 (c ∷ s)) || not (c == 32 && back_is (λ d. d == 32) (c ∷ s))) ≡ true
    → all_of is_inline (c ∷ s) ≡ true
    → read_span (code_span (c ∷ s)) ≡ some (c ∷ s)
read_span-code_span c s h l = elim (Bool-cases (ltb 0 (longest_run 0 0 (c ∷ s)))) [
  | inl ticked ↦ read_span-spaced (c ∷ s) (ground (arith, ticked)) l
  | inr plain ↦ read_span-plain c s (ground (arith, plain)) (ground (arith, h, plain)) l
]
