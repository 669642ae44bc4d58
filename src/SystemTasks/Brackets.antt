-- ===== src/SystemTasks/Brackets.antt =====
-- What the search for a closing bracket finds.
use slang_server_extended.Base.{
  ℕ, zero, suc, [], ◌∷◌, ◌++◌, Bool, true, false, ◌==◌, if◌then◌else◌, Option, none, some, ◌≡◌, ◌≢◌,
  ◌↔◌, refl, sym, ap, ◌∙◌, arith, Bytes, Bool-cases, inl, inr,
}
use slang_server_extended.SystemTasks.Signature.{find_balanced, in_front}

-- A text that closes the brackets `o` and `c` that it opens and `depth` ones before it, and never
-- more than that.
abbrev pub closes : ℕ → ℕ → ℕ → Bytes → Bool
closes o c depth [] = depth == 0
closes o c depth (x ∷ s) =
    if x == o
    then closes o c (suc depth) s
    else if x == c
    then elim depth [ zero ↦ false | (suc k) ↦ closes o c k s ]
    else closes o c depth s

-- One byte in front of what is found.
in_front-some :
    (x c : ℕ) (s : Bytes) (r : Option (Bytes × Bytes)) (P Q : Bytes → Bool)
    → ((u v : Bytes) → r ≡ some (u, v) → (s ≡ u ++ (c ∷ v)) × (P u ≡ true))
    → ((u : Bytes) → Q (x ∷ u) ≡ P u)
    → (u v : Bytes) → in_front x r ≡ some (u, v)
    → (x ∷ s ≡ u ++ (c ∷ v)) × (Q u ≡ true)
in_front-some x c s none P Q f q u v h = ground (arith, h)
in_front-some x c s (some (a, b)) P Q f q u v h =
    let e : (x ∷ a ≡ u) × (b ≡ v) = ground (arith, h) in
    let found = f a b refl in (ground (arith, e.0, e.1, found.0), ap Q (sym e.0) ∙ q a ∙ found.1)

-- The same for a byte that opens nothing.
find_balanced_sound_rest :
    (o c k x : ℕ) (s : Bytes)
    → (x == o) ≡ false
    → ((u v : Bytes)
        → find_balanced o c k s ≡ some (u, v)
        → (s ≡ u ++ (c ∷ v)) × (closes o c k u ≡ true))
    → ((j : ℕ) (u v : Bytes)
        → find_balanced o c j s ≡ some (u, v)
        → (s ≡ u ++ (c ∷ v)) × (closes o c j u ≡ true))
    → (u v : Bytes) → find_balanced o c k (x ∷ s) ≡ some (u, v)
    → (x ∷ s ≡ u ++ (c ∷ v)) × (closes o c k u ≡ true)
unfolding find_balanced
find_balanced_sound_rest o c zero x s p f g u v h = elim (Bool-cases (x == c)) [
  | inl close ↦ ground (arith, p, close, h)
  | inr other ↦
      in_front-some x c s (find_balanced o c zero s) (closes o c zero) (closes o c zero) f
        (λ w. ground (arith, p, other)) u v (ground (arith, p, other, h))
]
find_balanced_sound_rest o c (suc k) x s p f g u v h = elim (Bool-cases (x == c)) [
  | inl close ↦
      in_front-some x c s (find_balanced o c k s) (closes o c k) (closes o c (suc k)) (g k)
        (λ w. ground (arith, p, close)) u v (ground (arith, p, close, h))
  | inr other ↦
      in_front-some x c s (find_balanced o c (suc k) s) (closes o c (suc k)) (closes o c (suc k)) f
        (λ w. ground (arith, p, other)) u v (ground (arith, p, other, h))
]

-- The contents that are found are followed by the closing bracket, and close all that they open.
find_balanced_sound :
    (o c k : ℕ) (s u v : Bytes)
    → find_balanced o c k s ≡ some (u, v)
    → (s ≡ u ++ (c ∷ v)) × (closes o c k u ≡ true)
unfolding find_balanced
find_balanced_sound o c k [] u v h = ground (arith, h)
find_balanced_sound o c k (x ∷ s) u v h = elim (Bool-cases (x == o)) [
  | inl opening ↦
      in_front-some x c s (find_balanced o c (suc k) s) (closes o c (suc k)) (closes o c k)
        (find_balanced_sound o c (suc k) s) (λ w. ground (arith, opening)) u v
        (ground (arith, opening, h))
  | inr plain ↦
      find_balanced_sound_rest o c k x s plain (find_balanced_sound o c k s)
        (λ j. find_balanced_sound o c j s) u v h
]

-- Where there are such contents, they are found.
find_balanced_complete :
    (o c k : ℕ) (u v : Bytes)
    → o ≢ c
    → closes o c k u ≡ true
    → find_balanced o c k (u ++ (c ∷ v)) ≡ some (u, v)
unfolding find_balanced
find_balanced_complete o c k [] v n h = ground (arith, h, n)
find_balanced_complete o c zero (x ∷ u) v n h =
    ground
      (arith, h, n, find_balanced_complete o c (suc zero) u v, find_balanced_complete o c zero u v)
find_balanced_complete o c (suc k) (x ∷ u) v n h = ground (
  arith,
  h,
  n,
  find_balanced_complete o c (suc (suc k)) u v,
  find_balanced_complete o c k u v,
  find_balanced_complete o c (suc k) u v,
)

-- For two different brackets, `findBalancedContents` gives the contents behind an opening bracket
-- exactly where the text behind it is those contents and a closing bracket, and the contents close
-- each bracket that they open and no other.
pub find_balanced_iff :
    (o c : ℕ) (s u v : Bytes)
    → o ≢ c
    → (find_balanced o c zero s ≡ some (u, v)) ↔ ((s ≡ u ++ (c ∷ v)) × (closes o c zero u ≡ true))
find_balanced_iff o c s u v n = (
  find_balanced_sound o c zero s u v,
  (λ p. ap (find_balanced o c zero) p.0 ∙ find_balanced_complete o c zero u v n p.1),
)
