-- ===== src/Snippet/Numbering.antt =====
-- The counter of SnippetString over a history of appends.
use slang_server_extended.Base.{
  true, ◌≡◌, refl, sym, ap, ◌∙◌, append_assoc, append-nil, to_string, codes, ℕ, ◌≤◌, ◌<◌, Bytes,
  List, [], ◌∷◌, ◌++◌, Option, none, some, arith, All, All-append,
}
use slang_server_extended.Snippet.Defs.{
  escape, escape_choice, write_choices, SnippetString, next_tabstop, append_text, append_tabstop,
  append_placeholder, append_choice, append_variable,
}

-- A call of one of the append methods.
pub data Piece : Type 0 where
  text : Bytes → Piece
  tabstop : Option ℕ → Piece
  placeholder : Bytes → Option ℕ → Piece
  choice : List Bytes → Option ℕ → Piece
  variable : Bytes → Bytes → Piece

pub add : SnippetString → Piece → SnippetString
add s (text t) = append_text s t
add s (tabstop n) = append_tabstop s n
add s (placeholder v n) = append_placeholder s v n
add s (choice vs n) = append_choice s vs n
add s (variable name default) = append_variable s name default

-- The tabstop numbers that a call writes.
numbers : SnippetString → Piece → List ℕ
numbers s (text t) = []
numbers s (tabstop n) = (next_tabstop s n).0 ∷ []
numbers s (placeholder v n) = (next_tabstop s n).0 ∷ []
numbers s (choice [] n) = []
numbers s (choice (v ∷ vs) n) = (next_tabstop s n).0 ∷ []
numbers s (variable name default) = []

pub build : SnippetString → List Piece → SnippetString
build s [] = s
build s (p ∷ ps) = build (add s p) ps

pub all_numbers : SnippetString → List Piece → List ℕ
unfolding numbers
all_numbers s [] = []
all_numbers s (p ∷ ps) = numbers s p ++ all_numbers (add s p) ps

abbrev pub Below : ℕ → ℕ → Type 0
Below k n = n < k

add_grows : (s : SnippetString) (p : Piece) → s.tabstop ≤ (add s p).tabstop
unfolding add append_text append_tabstop append_placeholder append_choice append_variable
    next_tabstop
add_grows s (text t) = omega arith
add_grows s (tabstop none) = omega arith
add_grows s (tabstop (some n)) = omega arith
add_grows s (placeholder v none) = omega arith
add_grows s (placeholder v (some n)) = omega arith
add_grows s (choice [] n) = omega arith
add_grows s (choice (v ∷ vs) none) = omega arith
add_grows s (choice (v ∷ vs) (some n)) = omega arith
add_grows s (variable name default) = omega arith

build_grows : (s : SnippetString) (ps : List Piece) → s.tabstop ≤ (build s ps).tabstop
unfolding build
build_grows s [] = omega arith
build_grows s (p ∷ ps) = omega (arith, add_grows s p, build_grows (add s p) ps)

numbers-Below : (s : SnippetString) (p : Piece) → All (Below (add s p).tabstop) (numbers s p)
unfolding numbers add append_tabstop append_placeholder append_choice next_tabstop
numbers-Below s (text t) = tt
numbers-Below s (tabstop none) = omega arith
numbers-Below s (tabstop (some n)) = omega arith
numbers-Below s (placeholder v none) = omega arith
numbers-Below s (placeholder v (some n)) = omega arith
numbers-Below s (choice [] n) = tt
numbers-Below s (choice (v ∷ vs) none) = omega arith
numbers-Below s (choice (v ∷ vs) (some n)) = omega arith
numbers-Below s (variable name default) = tt

Below-mono : (m n : ℕ) (ks : List ℕ) → m ≤ n → All (Below m) ks → All (Below n) ks
Below-mono m n [] h b = tt
Below-mono m n (k ∷ ks) h b = (omega arith, Below-mono m n ks h b.1)

all_numbers-Below :
    (s : SnippetString) (ps : List Piece) → All (Below (build s ps).tabstop) (all_numbers s ps)
unfolding build all_numbers
all_numbers-Below s [] = tt
all_numbers-Below s (p ∷ ps) =
    All-append _ (numbers s p) (all_numbers (add s p) ps)
      (Below-mono _ _ (numbers s p) (build_grows (add s p) ps) (numbers-Below s p))
      (all_numbers-Below (add s p) ps)

-- What the snippet grammar writes for a call, its number given. A choice of no values is not written.
abbrev pub listed : List Bytes → Bytes
listed [] = []
listed (v ∷ []) = escape_choice v
listed (v ∷ w ∷ vs) = escape_choice v ++ b',' ∷ listed (w ∷ vs)

abbrev pub written : ℕ → Piece → Bytes
written n (text t) = escape t
written n (tabstop k) = b'$' ∷ to_string n
written n (placeholder v k) = codes "${" ++ to_string n ++ b':' ∷ escape v ++ b'}' ∷ []
written n (choice [] k) = []
written n (choice (v ∷ vs) k) = codes "${" ++ to_string n ++ b'|' ∷ listed (v ∷ vs) ++ codes "|}"
written n (variable name []) = codes "${" ++ name ++ b'}' ∷ []
written n (variable name (c ∷ s)) = codes "${" ++ name ++ b':' ∷ escape (c ∷ s) ++ b'}' ∷ []

-- The tab stop of a call, if it has one, with the number that the call gives, if it does.
abbrev pub slot : Piece → Option (Option ℕ)
slot (text t) = none
slot (tabstop k) = some k
slot (placeholder v k) = some k
slot (choice [] k) = none
slot (choice (v ∷ vs) k) = some k
slot (variable name default) = none

-- The text of some calls one behind the other, and the numbers that stand in it: where a call gives a
-- number, that one.
pub data Writes : List ℕ → List Piece → Bytes → Type 0 where
  nothing : Writes [] [] []
  plain :
      {ns : List ℕ} {p : Piece} {ps : List Piece} {t : Bytes}
      → slot p ≡ none
      → Writes ns ps t
      → Writes ns (p ∷ ps) (written 0 p ++ t)
  given :
      {k : ℕ} {ns : List ℕ} {p : Piece} {ps : List Piece} {t : Bytes}
      → slot p ≡ some (some k)
      → Writes ns ps t
      → Writes (k ∷ ns) (p ∷ ps) (written k p ++ t)
  chosen :
      {k : ℕ} {ns : List ℕ} {p : Piece} {ps : List Piece} {t : Bytes}
      → slot p ≡ some none
      → Writes ns ps t
      → Writes (k ∷ ns) (p ∷ ps) (written k p ++ t)

pub record Built (s : SnippetString) (ps : List Piece) : Type 0 where
  pub numbers_in : List ℕ
  pub more : Bytes
  pub value : (build s ps).value ≡ s.value ++ more
  pub writes : Writes numbers_in ps more
  pub below : All (Below (next_tabstop (build s ps) none).0) numbers_in

write_choices-listed : (v : Bytes) (vs : List Bytes) → write_choices true (v ∷ vs) ≡ listed (v ∷ vs)
unfolding write_choices
write_choices-listed v [] = append-nil (escape_choice v)
write_choices-listed v (w ∷ vs) = ap (λ r. escape_choice v ++ b',' ∷ r) (write_choices-listed w vs)

-- The number of a call's tab stop, 0 where it has none.
number_of : SnippetString → Option (Option ℕ) → ℕ
number_of s none = 0
number_of s (some k) = (next_tabstop s k).0

choice-written :
    (s : SnippetString) (n : ℕ) (v : Bytes) (vs : List Bytes)
    → (s.value ++ codes "${") ++ (to_string n ++ b'|' ∷ write_choices true (v ∷ vs) ++ codes "|}")
      ≡ s.value ++ (codes "${" ++ to_string n ++ b'|' ∷ listed (v ∷ vs) ++ codes "|}")
choice-written s n v vs =
    append_assoc s.value (codes "${")
      (to_string n ++ b'|' ∷ write_choices true (v ∷ vs) ++ codes "|}")
    ∙ ap (λ r. s.value ++ (codes "${" ++ to_string n ++ b'|' ∷ r ++ codes "|}"))
        (write_choices-listed v vs)

add-written :
    (s : SnippetString) (p : Piece) → (add s p).value ≡ s.value ++ written (number_of s (slot p)) p
unfolding add append_text append_tabstop append_placeholder append_choice append_variable
    next_tabstop number_of
add-written s (text t) = refl
add-written s (tabstop none) = append_assoc s.value (b'$' ∷ []) _
add-written s (tabstop (some n)) = append_assoc s.value (b'$' ∷ []) _
add-written s (placeholder v none) = append_assoc s.value (codes "${") _
add-written s (placeholder v (some n)) = append_assoc s.value (codes "${") _
add-written s (choice [] n) = sym (append-nil s.value)
add-written s (choice (v ∷ vs) none) = choice-written s s.tabstop v vs
add-written s (choice (v ∷ vs) (some n)) = choice-written s n v vs
add-written s (variable name []) = simp append-nil
add-written s (variable name (c ∷ d)) = refl

Writes-first :
    (s : SnippetString) (p : Piece) (ns : List ℕ) (ps : List Piece) (t : Bytes)
    → Writes ns ps t
    → Writes (numbers s p ++ ns) (p ∷ ps) (written (number_of s (slot p)) p ++ t)
unfolding numbers number_of next_tabstop
Writes-first s (text u) ns ps t w = plain refl w
Writes-first s (tabstop none) ns ps t w = chosen refl w
Writes-first s (tabstop (some n)) ns ps t w = given refl w
Writes-first s (placeholder v none) ns ps t w = chosen refl w
Writes-first s (placeholder v (some n)) ns ps t w = given refl w
Writes-first s (choice [] n) ns ps t w = plain refl w
Writes-first s (choice (v ∷ vs) none) ns ps t w = chosen refl w
Writes-first s (choice (v ∷ vs) (some n)) ns ps t w = given refl w
Writes-first s (variable name default) ns ps t w = plain refl w

build-Writes :
    (s : SnippetString) (ps : List Piece)
    → (t : Bytes) × ((build s ps).value ≡ s.value ++ t) × Writes (all_numbers s ps) ps t
unfolding build all_numbers
build-Writes s [] = ([], sym (append-nil s.value), nothing)
build-Writes s (p ∷ ps) =
    let (t, e, w) = build-Writes (add s p) ps in
    let here = written (number_of s (slot p)) p in
    (
      here ++ t,
      e ∙ ap (λ r. r ++ t) (add-written s p) ∙ append_assoc s.value here t,
      Writes-first s p (all_numbers (add s p) ps) ps t w,
    )

-- After any history of appends, those of a variable with a callback left aside, the text has grown by
-- what the snippet grammar writes for the calls, each tab stop, placeholder and choice with a number:
-- the one that the call gives, if it gives one. The number that the next append without one takes is greater than all the numbers
-- written in the history.
pub next_tabstop-fresh : (s : SnippetString) (ps : List Piece) → Built s ps
unfolding next_tabstop
next_tabstop-fresh s ps =
    let (t, e, w) = build-Writes s ps in
    record {
      numbers_in = all_numbers s ps;
      more = t;
      value = e;
      writes = w;
      below = all_numbers-Below s ps;
    }
