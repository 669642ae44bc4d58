-- ===== src/Snippet/Reader.antt =====
-- A reader of the LSP snippet grammar, written from the grammar and not from the builder: text up to
-- a closing brace, `${n:text}` and `${n|a,b|}`.
use slang_server_extended.Base.{
  ℕ, Bytes, List, [], ◌∷◌, ◌++◌, append_assoc, append-nil, Bool, true, false, ◌==◌, if◌then◌else◌,
  Option, none, some, ◌≡◌, refl, arith, codes, length, drop, drop-length-append, to_string,
  read_digits, read-to_string, ◌>>=◌,
}
use slang_server_extended.Snippet.Defs.{
  SnippetString, escape, next_tabstop, append_placeholder, escape_choice, write_choices,
  append_choice,
}

expect : ℕ → Bytes → Option Bytes
expect c [] = none
expect c (d ∷ s) = if d == c then some s else none

-- Text with `\x` for `x`, up to a closing brace. A bare `$` would begin another placeholder.
read_text : Bool → Bytes → Bytes → Option (Bytes × Bytes)
read_text pending out [] = none
read_text true out (c ∷ s) = read_text false (out ++ c ∷ []) s
read_text false out (c ∷ s) =
    let wait = read_text true out s in
    let copy = read_text false (out ++ c ∷ []) s in
    if c == b'\\'
    then wait
    else if c == b'}'
    then some (out, s)
    else if c == b'$'
    then none
    else copy

pub read_placeholder : Bytes → Option (ℕ × Bytes × Bytes)
unfolding expect read_text
read_placeholder s = do
  s1 ← expect b'$' s
  s2 ← expect b'{' s1
  let p = read_digits 0 s2
  s3 ← expect b':' p.1
  q ← read_text false [] s3
  some (p.0, q.0, q.1)

read_text-escape :
    (v out rest : Bytes) → read_text false out (escape v ++ b'}' ∷ rest) ≡ some (out ++ v, rest)
unfolding read_text escape
read_text-escape [] out rest = rw append-nil
read_text-escape (c ∷ v) out rest =
    ground (arith, read_text-escape v (out ++ c ∷ []) rest, append_assoc out (c ∷ []) v)

placeholder_text : ℕ → Bytes → Bytes
unfolding escape
placeholder_text n v = b'$' ∷ b'{' ∷ (to_string n ++ b':' ∷ escape v ++ b'}' ∷ [])

-- What is appended behind a text is what is left when the text is dropped.
drop_appended :
    (x y z w rest : Bytes) → w ≡ (x ++ y) ++ z → drop (length x) w ++ rest ≡ y ++ z ++ rest
drop_appended x y z w rest e = rw (e, append_assoc x y z, drop-length-append x (y ++ z))

placeholder_value :
    (s : SnippetString) (v : Bytes) (number : Option ℕ)
    → (append_placeholder s v number).value
      ≡ (s.value ++ codes "${")
        ++ (to_string (next_tabstop s number).0 ++ b':' ∷ escape v ++ b'}' ∷ [])
unfolding append_placeholder
placeholder_value s v none = refl
placeholder_value s v (some n) = refl

read_placeholder_lem :
    (n : ℕ) (v rest : Bytes)
    → read_placeholder (b'$' ∷ b'{' ∷ (to_string n ++ b':' ∷ (escape v ++ b'}' ∷ rest)))
      ≡ some (n, v, rest)
unfolding read_placeholder
read_placeholder_lem n v rest =
    rw (read-to_string n b':' (escape v ++ b'}' ∷ rest) refl, read_text-escape v [] rest)

regroup :
    (n c d : ℕ) (v rest : Bytes)
    → (to_string n ++ c ∷ v ++ d ∷ []) ++ rest ≡ to_string n ++ c ∷ (v ++ d ∷ rest)
regroup n c d v rest = simp append_assoc

-- Whatever the value holds, a reader finds the placeholder's number and its value, and what follows.
pub read-append_placeholder :
    (s : SnippetString) (v rest : Bytes) (number : Option ℕ)
    → read_placeholder (drop (length s.value) (append_placeholder s v number).value ++ rest)
      ≡ some ((next_tabstop s number).0, v, rest)
unfolding read_placeholder
read-append_placeholder s v rest number =
    rw
      (
        drop_appended s.value (codes "${") _ _ rest (placeholder_value s v number),
        regroup (next_tabstop s number).0 b':' b'}' (escape v) rest,
      )
      (read_placeholder_lem (next_tabstop s number).0 v rest)

-- Choice items with `\\x` for `x`, divided by commas, up to `|}`.
read_items : Bool → Bytes → Bytes → Option (List Bytes × Bytes)
unfolding expect
read_items pending cur [] = none
read_items true cur (c ∷ s) = read_items false (cur ++ c ∷ []) s
read_items false cur (c ∷ s) =
    let wait = read_items true cur s in
    let copy = read_items false (cur ++ c ∷ []) s in
    let more = read_items false [] s in
    if c == b'\\'
    then wait
    else if c == b','
    then more >>= (λ p. some (cur ∷ p.0, p.1))
    else if c == b'|'
    then expect b'}' s >>= (λ r. some (cur ∷ [], r))
    else copy

pub read_choice : Bytes → Option (ℕ × List Bytes × Bytes)
unfolding expect read_items
read_choice s = do
  s1 ← expect b'$' s
  s2 ← expect b'{' s1
  let p = read_digits 0 s2
  s3 ← expect b'|' p.1
  q ← read_items false [] s3
  some (p.0, q.0, q.1)

read_items-escape_choice :
    (v cur rest : Bytes)
    → read_items false cur (escape_choice v ++ rest) ≡ read_items false (cur ++ v) rest
unfolding read_items escape_choice
read_items-escape_choice [] cur rest = rw append-nil
read_items-escape_choice (c ∷ v) cur rest =
    ground (arith, read_items-escape_choice v (cur ++ c ∷ []) rest, append_assoc cur (c ∷ []) v)

after_comma :
    (v s : Bytes) (r : List Bytes × Bytes)
    → read_items false [] s ≡ some r
    → read_items false v (b',' ∷ s) ≡ some (v ∷ r.0, r.1)
unfolding read_items
after_comma v s r h = rw h

read_items-write_choices :
    (v : Bytes) (vs : List Bytes) (rest : Bytes)
    → read_items false [] (write_choices true (v ∷ vs) ++ codes "|}" ++ rest) ≡ some (v ∷ vs, rest)
unfolding write_choices
read_items-write_choices v [] rest =
    rw (append-nil, append_assoc (escape_choice v) (codes "|}") rest, read_items-escape_choice v)
      (unfold read_items in refl)
read_items-write_choices v (w ∷ vs) rest =
    rw (append_assoc (escape_choice v), append_assoc (escape_choice v), read_items-escape_choice v)
      (after_comma v _ _ (read_items-write_choices w vs rest))

choice_value :
    (s : SnippetString) (v : Bytes) (vs : List Bytes) (number : Option ℕ)
    → (append_choice s (v ∷ vs) number).value
      ≡ (s.value ++ codes "${")
        ++ (to_string (next_tabstop s number).0 ++ b'|' ∷ write_choices true (v ∷ vs) ++ codes "|}")
unfolding append_choice
choice_value s v vs none = refl
choice_value s v vs (some n) = refl

regroup_choice :
    (n : ℕ) (w rest : Bytes)
    → (to_string n ++ b'|' ∷ w ++ codes "|}") ++ rest
      ≡ to_string n ++ b'|' ∷ (w ++ codes "|}" ++ rest)
regroup_choice n w rest = simp append_assoc

-- A reader finds the number and exactly the given values, whatever they hold, and what follows.
pub read-append_choice :
    (s : SnippetString) (v : Bytes) (vs : List Bytes) (rest : Bytes) (number : Option ℕ)
    → read_choice (drop (length s.value) (append_choice s (v ∷ vs) number).value ++ rest)
      ≡ some ((next_tabstop s number).0, v ∷ vs, rest)
unfolding read_choice
read-append_choice s v vs rest number = rw (
  drop_appended s.value (codes "${") _ _ rest (choice_value s v vs number),
  regroup_choice (next_tabstop s number).0 (write_choices true (v ∷ vs)) rest,
  read-to_string (next_tabstop s number).0 b'|' (write_choices true (v ∷ vs) ++ codes "|}" ++ rest)
      refl,
  read_items-write_choices v vs rest,
)
